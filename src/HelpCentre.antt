-- ===== src/HelpCentre.antt =====
-- A4/hcq.c and A4/helpcentre.c: the help centre's queue of students, its TAs, and the commands.
pub mod Students
pub mod Tas
pub mod Reports
pub mod Commands
mod Tests
