-- ===== src/HelpCentre/Commands/Printing.antt =====
-- A4/helpcentre.c, lines 45 to 49: what the two print commands do, which drop the texts that they build.
use csc.Common.{
  ◌+◌, ◌≡◌, refl, false, none, some, List, [], arith, leb, if◌then◌else◌, length, Bytes, codes,
  strcmp, str_eq,
}
use csc.Newline.{cstr}
use csc.HelpCentre.Reports.{print_full_queue, print_currently_serving}
use csc.HelpCentre.Reports.Buffers.{currently_serving_overflows, full_queue_fits}
use csc.HelpCentre.Commands.{Centre, process_args, collect_args, strtok_all, run_line}

-- The line of `print_currently_serving` always writes past a block, whoever waits and works. That of
-- `print_full_queue` does so exactly when its fresh block holds more than one byte up to its first NUL;
-- else it returns, changes nothing and says nothing.
pub run_line-prints :
    (held : Bytes) (courses : List Bytes) (c : Centre)
    → (run_line held courses (codes "print_currently_serving\n") c ≡ none)
      × (run_line held courses (codes "print_full_queue\n") c
          ≡ (if leb (length held) 1 then some (c, []) else none))
unfolding run_line process_args collect_args strtok_all cstr str_eq strcmp
run_line-prints held courses c =
    let past = (currently_serving_overflows held c.ta_list).1 in
    let room = (full_queue_fits held courses c.stu_list).1 in
    let over : leb (length (print_currently_serving held c.ta_list).text + 1)
          (print_currently_serving held c.ta_list).allocated
        ≡ false =
      ground (arith, past) in
    let same : leb (length (print_full_queue held courses c.stu_list).text + 1)
          (print_full_queue held courses c.stu_list).allocated
        ≡ leb (length held) 1 =
      ground (arith, room.0, room.1) in
    (rw over refl, rw same refl)
