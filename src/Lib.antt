-- ===== src/Lib.antt =====
-- Verification of the programs of the CSC209 repository, which are independent of each other:
--   * Lab10/bufserver.c, a line server with a fixed buffer: Newline (the search for "\r\n" that it
--     shares with A4, and what a line is) and Bufserver (the buffer, `find_network_newline`, the
--     inner loop as `drain` and the read loop as `serve`).
--   * A4/hcq.c, A4/hcq.h and A4/helpcentre.c, the queue of a help centre: HelpCentre.Students
--     (students and courses), HelpCentre.Tas (TAs and who serves whom), HelpCentre.Reports (the two
--     texts, with the sizes that the code allocates and what a fresh block holds) and HelpCentre.Commands (`process_args` and the
--     loop over the lines, with HelpCentre.Commands.Words on `strtok`).
--   * A2/hcq.c, A2/hcq.h and A2/helpcentre.c, the first version of that queue, in which a student is
--     linked twice: Waitlist (the store and the structs), Waitlist.Operations, Waitlist.Reports (what is
--     printed), Waitlist.Config (the course file) and Waitlist.Commands (`process_args` and the loop over
--     the lines). Waitlist.View says which queue a store stands for (`Shows`), Waitlist.Spec and
--     Waitlist.Answers what the operations and commands do to it, Waitlist.Requests what can be asked for,
--     how it is spelled, and what a view answers, in words of its own.
--   * A4/hcq_server.c and A4/hcq_server.h, the same queue behind sockets: Server (clients, their list,
--     `add_client`, `remove_client`), Server.Handle (`handle_client`) and Server.Loop (one ready
--     descriptor). It uses HelpCentre.Students, HelpCentre.Tas and HelpCentre.Reports.
--   * A3/freq_list.c, A3/punc.c and A3/indexer.c, an index of words: Index (nodes, file names,
--     `add_word`, `write_list`, `read_list`), Index.Words (`remove_punc` and `index_file`) and
--     Index.Directory (the loop of `main`). Index.Spelling and Index.Documents say what the words of a
--     text are, apart from how the code reads them.
--   * A3/worker.c and A3/query.c, queries of such indexes: Worker (`get_word`, a worker's reply,
--     `insert` and the loop of the parent for one query), Worker.Pipes (who has which end of a pipe
--     open) and Worker.Subdirectories (the directories that are searched).
--   * A1/sudoku_helpers.c: Sudoku. A1/most_processes.c: Processes. Lab11/chat_server.c: Chat.
--     Lab8/validate.c: Password, which takes `chop` from Index. Lab3/fibonacci.c,
--     Lab3/split_array.c, Lab4/strip.c,
--     Lab4/truncate.c, Lab4/compare.c, Lab4/greeting.c and Lab2/phone.c: Exercises. Lab5/bitmap.c:
--     Bitmap, with the signed numbers of Int, which Sudoku uses too.
-- Common holds what all share: Boolean tests, lists and C strings over native numbers, chains of
-- Option.
--
-- State is passed on explicitly, as records with the source's fields. A pointer into a linked list
-- is a position in a list, in A2 an address of a store; NULL is `none`; an array is its list of
-- elements, stale ones included. `none` as a result, or a constructor that says so, is a fault: an
-- access outside an array, a step through NULL or a freed object, or `exit`. Input that comes from
-- outside (what a `read` or an `accept` delivers, the lines of a file, the replies of a child) is
-- an argument; what is found in memory that was never written, `stat`, `sscanf` and the classes of
-- <ctype.h> are parameters.
--
-- Fuel: `drain` gets one more than the bytes in the buffer, since every line takes two off;
-- `read_names`, `index_lines` and `find_line` of Password get the length of the file, since every
-- `fgets` takes a byte. The
-- loops along the links of A2 get one more than the addresses given out, since a student waits at
-- each of them once at most (`rounds`). Other loops recurse on the data. Numbers are unbounded, but
-- that Bitmap reads an `int` from its 32 bits;
-- the counters of A1, A2 and A3 are an `int` in the source, which holds them below 2^31; the sums
-- of seconds of A2 are a `double`, exact below 2^53.
--
-- Not modelled: sockets, processes and what goes through the pipes between them; a `malloc` or
-- system call that fails; the texts that `printf` makes in A2; the other exercises of Lab1 to
-- Lab9; the mains that only read and print. A name that is copied to a heap block one byte too
-- short (A2/hcq.c, A4/hcq_server.c, Lab11/chat_server.c) is taken to be stored. A command of A2
-- reads the clock once. The server of A4 takes the fresh blocks of its two texts to begin with a NUL,
-- and the byte written behind one of them to change nothing else. What the first `insert` of a query
-- compares with, in front of the array, is any number, and reading it is no fault.
pub mod Common
pub mod Int
pub mod Newline
pub mod Bufserver
pub mod HelpCentre
pub mod Server
pub mod Index
pub mod Worker
pub mod Sudoku
pub mod Processes
pub mod Chat
pub mod Password
pub mod Exercises
pub mod Bitmap
pub mod Waitlist
