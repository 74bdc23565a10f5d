-- ===== src/Lib.antt =====
-- Argus runs and watches tasks: a server (src/server.c) reads commands from a fifo, starts a
-- process group for each task, keeps the tasks in an array (src/task/task_vec.c), and writes
-- listings through a buffered writer (src/buf_io/buf_writer.c); the ids of tasks are read by
-- src/parse_size.c. The client (src/client.c) writes the commands with the same writer.
--
-- The parts of the program and their files, by paths from the root of the repository:
--
-- - src/task/task_vec.c, include/task/task_vec.h and include/task/task.h: TaskVec.antt has the
--   structures `Task` and `TaskVec` and one function for each `tvec_` function that changes the
--   array or searches it, with the allocation loop that `tvec_push` and `tvec_insert_at` share as
--   `grow`. TaskVec/Valid has the invariant and the tasks that an array holds; Grow, Push, Insert,
--   Remove, Pop, Search and Shrink have the proofs for the functions of these names, Caps those
--   about the capacity, and Ready what lets an array grow. TaskVec/Session has sequences of calls,
--   and the same calls on a list; Replay has the proof that they agree. Access has the functions
--   that show a field, and Bag the tasks without their order, as a quotient.
-- - src/parse_size.c and include/parse_size.h: ParseSize.antt has `parse_size` on a string and
--   `parse_size_slice` on the characters between two pointers. The two share their loops; what
--   differs is the test for the end, which is an argument. ParseSize/Messages has the texts of the
--   outcomes. ParseSize/Scan, Strings, Sound and Slices have the proofs. `parse_size_slice` calls
--   `isdigit(begin)` with a pointer, which is undefined (ISO/IEC 9899, 7.4): a memory error of the
--   model, which a server meets at each command that ends a task by its id.
-- - src/buf_io/buf_writer.c and include/buf_io/buf_writer.h: BufWriter.antt has the structure and
--   the `bw_` functions, with the branches that `bw_write` and `bw_write_line` share as functions
--   that are given what follows. BufWriter/Valid has the invariant and the stream, which is what
--   the descriptor got and what the buffer holds; Pieces, Write, Line, Flush, Making and Fits have
--   the proofs, and Session those for sequences of writing calls. BufWriter/Access has the functions
--   that show a field, and Messages `bw_outcome_msg`.
-- - src/buf_io/buf_reader.c and include/buf_io/buf_reader.h: BufReader.antt has the structure and
--   the `br_` functions, BufReader/Access those that show a field, Messages `br_outcome_msg`, and
--   BufReader/Calls the proofs for sequences of calls.
-- - include/argus_conf.h: Conf.antt has the flags and the names of the commands.
-- - include/comfy_io.h: ComfyIo.antt has the macros that print to the standard error.
-- - src/server.c: Server.antt has a round of the loop of `main` with all commands, the loop, and
--   the signal handler; Server/Start has what `main` does before. Server/Begin, Commands, Listing
--   and Signals have the proofs for these. Server/Invariant has the invariant of the loop,
--   Preserves what its parts need of the allocator and the array, Safety and Rounds that the
--   commands keep it, Receive what the line buffer holds, Dispatch that reading a line keeps the
--   invariant, and Loop that all rounds do. Server/Exit has what the server runs at exit, and Leaves
--   the proof for it. Server/Ledger has the abstract view of the server, lists of tasks and signals
--   that obey orders, and Refines the proof that a round does so. Server/System puts the server among
--   clients that write to its fifo, as a step relation. The server uses the functions of TaskVec,
--   ParseSize and BufWriter where the source calls them.
-- - src/server.c, the child process behind `fork`: Server/Child.antt has the functions that count,
--   the loop that stores the processes of a command, and the count and the loop that make an
--   `argv`. Server/Child/Launch has the loop that makes the pipes, forks and calls `execv`, and the
--   whole branch of the child. Server/Child/Words, Procs, Args, Argv and Pipeline have the proofs.
-- - src/client.c: Client.antt has what the client writes to the fifo of the commands and the names
--   of the commands, Client/Options what it does with an option, up to the end of its writer at
--   exit, Client/Copy the loops that copy the fifo of a listing and the options that list,
--   Client/Lines a round of the interactive loop, and Client/Session the interactive client.
--   Client/Exit has the functions that run at exit, in their order and with their messages, and
--   Client/Exit/Order the proofs for them; Client/Help has the text of `print_help`.
--   Client/Names, Send, Listing, Interactive, Quiet, Turns, GoesOn and Ends have the proofs,
--   Client/Lost and Twice the way of a command from the client to the server.
--
-- Base has what they share: Base/Tests the Boolean tests, Base/Lists lists over the native
-- numbers, Base/Faults computations that may end in a memory error, and Base/Cells blocks of
-- memory, with `malloc`, `realloc`, `memcpy`, `memmove` and access to a cell. An access outside a
-- block, through a null pointer or to a block that was given back is a memory error, and so is the
-- call of `isdigit` with a pointer. Files.antt has the system call that writes: it answers -1 or takes
-- a number of bytes, which go into a log.
--
-- Sizes are numbers modulo 2 ^ 64, with the wrap-around of each addition and product written out;
-- a `Task` has 24 bytes; a `char` is signed, and a byte of a string is its number below 256. The
-- allocator answers as a parameter says; `realloc` of a block to the size 0 gives it back and
-- returns NULL, as that of the GNU library does. `isspace` and `isdigit` are those of the GNU library
-- in the C locale, which say no to a character with a negative number. Loops are
-- recursive on the number of their rounds, which is the length of the array, the number of
-- attempts, or the rest of the string, so none runs out. `count_words` and the loop that makes an
-- `argv` have fuel, two more than the length of the string, which is enough. The loops that end
-- only by what the operating system does (that of `main` in the server, that of the interactive
-- client, and those that copy a fifo) are run over a list of what it does in their rounds.
--
-- A child process is followed by what `fork` returns in it; the standard input and output are the end
-- of a pipe, by the round that made it. In the system of the server and its clients the fifo is the
-- list of the bytes that were written to it and not yet read, and a round reads what stands first.
-- The loop over the processes of a command has as many rounds as its end is behind its begin.
--
-- Not modelled: the error messages that `main` prints before it returns EXIT_FAILURE, in both
-- programs, and those of the server's functions at exit; `program_eputc`, which names a macro that is
-- not there; `setsid`, which changes nothing that is followed; and what the started programs do.
pub mod Base
pub mod TaskVec
pub mod ParseSize
pub mod Files
pub mod BufReader
pub mod BufWriter
pub mod Conf
pub mod ComfyIo
pub mod Server
pub mod Client
