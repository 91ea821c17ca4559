-- ===== src/Lib.antt =====
-- The bank of the second project (Project2/source), server and client: the accounts, the handling of
-- a request, the queue of requests, the threads and the log; the file analyser of the first project
-- (Project1); and exercises of the course (Exercises).
--
-- A client sends a request through a FIFO. The main thread of the server reads it, pushes it on a
-- queue and posts a semaphore; one of the bank offices, which are threads, is woken, takes the
-- request from the queue under a mutex, handles it and writes the reply to the client's FIFO.
--
-- Files, with the source that each models:
-- - Base: names of the libraries, tests on numbers, lists and their merges, C strings (strcmp, strtok),
--   32-bit words and the directives of printf.
-- - Queue: Project2/source/list_queue.h, a linked list on an explicit heap; Refinement and Runs
--   prove it to be a list.
-- - Bank/Types: types.h, constants.h, banking_aux.h. An enumerator keeps its name, without the
--   capitals; the members of a union that lie over each other are one field.
-- - Bank/State: the global variables that the handling of a request uses, and the actions over them.
--   An action returns, or stops: an access outside of the array of accounts, a NULL pointer, an
--   exit, or a wait for a semaphore at 0.
-- - Bank/Password: the passwords, salts and hashes of general_aux.c.
-- - Bank/Accounts: is_active_account, create_bank_account and validate_bank_account of
--   banking_aux.c; Login proves how they go together.
-- - Bank/Reply: build_tlv_reply of banking_aux.c, a function for each case of its switch; the
--   children prove what a request does (Rules, Frame, Transfer, Answers, Conservation).
-- - Bank/Invariant, Bank/Semaphores: what build_tlv_reply keeps of the array of accounts.
-- - Server/Serve: the part of read_request (server.c) that holds the mutex, with the semaphores of
--   the accounts; the children prove when it returns (Totality, Blocking) and that it gives back what
--   it takes (Semaphores).
-- - Server/Offices: the threads, as a step relation over what they share. A whole request is one
--   step, since the mutex is held from before the queue is read until the reply is logged; the
--   semaphore, the flags and the counter of active threads are read and written in one step each.
--   Invariant and Safety have what holds in every reachable state, Deadlock a state without a way out.
-- - Log: log.c, and the log_ functions of general_aux.c: the text of each entry and what the
--   functions return. Lines, Texts, Calls, Entries and File prove how entries go together into the
--   file of the log, Columns how long the common part of an entry is. Names has the tables, and Api the
--   interface, sope.h, and where the functions return what it says.
-- - Client: user.c, with build_tlv_request of banking_aux.c and create_fifo, remove_fifo and
--   get_string_arguments of general_aux.c; RoundTrip and Runs prove what it makes of a command and of
--   what the system answers. Cleanup has its handler at exit, with the file that it removes.
-- - Server/Start: main of server.c up to its loop; Login proves which offices and accounts there are then.
-- - Forensic: the helpers of the file analyser, Project1/forensic_aux.c; Hashes proves what the names
--   of hash functions and the output of their tools come to.
-- - Forensic/Files: executeSystemCommand, getAllHashModes and the line of analyze_file; Overflow proves
--   where an array is too small.
-- - Forensic/Walk: analyze_file, analyze_path and main of Project1/forensic.c, as processes with their
--   events and forks; Complete proves what they do together. Forensic/Signals: sig_handler and
--   log_command; Counts and Walked prove what the counters come to.
-- - Exercises/Fill: p1a.c of Exercises/prob07 as a step relation, p3.c (Locked) and p1b.c (Race) as
--   programs that differ from it in a part; Invariant, Joined, Steps, Ends and Outcome prove what they
--   come to.
-- - Exercises/Limit: p2.c of prob07 as a step relation, and (Race) p02.c of prob06; Invariant, Outcome
--   and Race/Excess prove what they come to.
-- - Exercises/Copy: the copies of Exercises/prob01 and prob02, Blocks and Screen with read and write,
--   Texts with fgets and fputs; Complete, Exact, Equivalence and Agree prove what they
--   write.
-- - Exercises/Children: p4a.c, p4b.c, p5a.c and p5b.c of prob04 as a step relation over a parent, its
--   children and the handler of SIGCHLD; Progress and Ends prove what they come to, Reaped what there
--   is of zombies, Reports and Ignored what is printed of the children.
-- - Exercises/Signals: p3b.c of prob04, a handler that is interrupted; Covered and Bounds prove how far
--   it counts.
-- - Exercises/Fifo: the writers and the reader of messages of prob05, p06a1.c, p06a2.c and p06b1.c;
--   Arrival proves what the reader makes of them.
-- - Exercises/Sums: Pipes has p1a.c, p1b.c and p2a.c of prob05, Threads p05a.c, p05a1.c and p05b.c of
--   prob06; Memory, Answers and Agree prove what they print.
-- - Exercises/Typed: p1.c and p4a.c of prob02; Secret and Grades prove what they make of what is typed.
-- - Exercises/Forks: p6.c, p6b.c and p6c.c of prob03; Count proves how many lines they print.
-- - Exercises/Hello: p03.c, p03b.c, p03c.c, p04a.c, p04b.c and p04c.c of prob06, threads with a number of
--   their own or with an address that they share; Numbers proves which numbers they print.
-- - The modules called Tests: the theorems at concrete data.
--
-- Bounds: the array has 4096 entries and a word 32 bits, as in the source. Fuel is used for the printing
-- of decimal numbers, one more than the number, and for the loops of the copies, one more than the
-- bytes of the source, since each round but the last takes one at least; so for the reader of the FIFO.
--
-- Parameters, in the record Host: the results of rand(), what a shell command prints through popen,
-- and whether the FIFO of a user opens. In the server a call of a logging function is an entry of a
-- list, whose text Log gives. HasShasum says that the shell prints a hash for a password and a salt with no
-- byte that it reads between double quotes; the start has the answers of pthread_create, mkfifo and
-- open in the record Answers.
--
-- The log and the client have theirs in the records Process (PIPE_BUF, the process, the threads, the
-- descriptor that open answers and what write takes for it), Machine (the room where malloc points, what
-- memory holds before a write) and World (whether FIFOs open, whether that of the server takes the
-- request, the answers of mkfifo and read).
--
-- The walk is given a Setting (the shell, the options, which forks succeed) and a tree for the file
-- system, which does not change; the arrays of getAllHashModes have the bytes of Shell where fgets reads
-- nothing. A signal is pending or not, as POSIX has it, and a second one of its kind is lost meanwhile.
-- A process is what it emits, and standard output goes out at the call, as on a terminal. The
-- copies are given Files: what opens, and what each call of read and write answers; fgets and fputs fail
-- where these do. A Verification is
-- what a program has around the loop of verify, and what is asked of it.
--
-- The readers of the FIFO and of the terminal are given what each call answers, as a list: where it comes
-- to its end the program waits. Floats is what the compiler has for a float: the operations, and its four
-- bytes, which are read back as they were written.
--
-- In the exercises with threads or signals each statement is one step, the counts start at 0, and a
-- thread counts for created once its pthread_create has returned.
--
-- Not modelled: the exercises that run other programs (execlp, dup2), the other forks of prob03,
-- and those that only print; how long a sleep lasts; p4.c of prob07, which does not compile; the
-- handler at exit of the server, the texts that the bank prints to the terminal, chmod and the
-- delays; the write past the end of the local hash of validate_bank_account, which is given no
-- effect.
pub mod Base
pub mod Queue
pub mod Bank
pub mod Server
pub mod Log
pub mod Client
pub mod Forensic
pub mod Exercises
