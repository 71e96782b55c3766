-- ===== src/Lib.antt =====
-- Slogger: a logger that writes to its file from a thread of its own, and a play list
-- ==================================================================================
--
-- The logger (slogger.c, slogger.h). `pushMessage` hands a message to `enqueue`, which stores it in
-- a ring of 2048 pointers under a mutex; `logging_thread` takes the messages out with `dequeue`,
-- which waits on a condition variable while the ring is empty, and writes them to the file.
-- `slog_start` creates the thread and the ring, `slog_stop` sets a flag, signals, joins and frees.
--   * Logger.antt: `Queue` is the static variable `queue` less its mutex and condition variable.
--     `enqueue_locked` is `enqueue` between lock and unlock, `must_wait` the test of the loop in
--     `dequeue`, `dequeue_locked` what follows that loop. `set_capacity` and `allocate` are the two
--     assignments of `slog_start`, `close` and `release` those of `slog_stop`.
--   * Logger/Channel.antt is the abstract specification, a bounded first-in first-out channel;
--     Logger/Represents.antt says which ring stores which messages, Logger/Refine.antt relates both.
--     Logger/Sink.antt is the interface that a producer uses, an instance of which each of them is;
--     Logger/Trace.antt compares whole sequences of critical sections, and Logger/View.antt is the quotient
--     of the rings that forgets all but their messages, which is all that callers can see.
--   * Logger/System.antt is the step relation of the threads, where a step is what one thread does
--     between two points where another can run. The messages that were stored are kept in a ghost
--     field. Logger/Invariant.antt is its invariant, Logger/Preserve.antt and its children prove that
--     every step keeps it, Logger/Drain.antt counts the steps of the logging thread at the end, and
--     Logger/Safety.antt draws the conclusions. Logger/Restart.antt is about a second `slog_start`.
--   * A message is its bytes, and `file_text` what `fwrite` makes of them. Any number of
--     producers may run, a push is possible whenever the mutex is free. A push between the
--     assignments of `capacity` and of `data` in `slog_start` is excluded, since the code would write
--     through `NULL` there. Every `malloc` of the logger but that of `pushMessage` succeeds.
--
-- The play list (playlinklist.c, playlinklist.h): a doubly linked list of at most 16 tracks, each
-- node with a path and a file name of its own, and a page of 5 entries.
--   * Memory.antt is the heap: a store of nodes and a store of strings by address, and the commands
--     that read, write, allocate and free. A command on an address where nothing lies is `crash`.
--     The addresses that `malloc` returns are arguments, and `NULL` is address 0; that they are fresh
--     is the hypothesis `IsFresh`.
--   * Playlist.antt has every function of the source on that heap. A loop over the list takes fuel,
--     one unit for each test of its condition; one unit more than the length of the list is enough,
--     as the theorems show. Loops whose number of rounds the code bounds are recursion on the rounds.
--   * Playlist/FileName.antt is `extract_file_name`, Playlist/File.antt are `saveplaylist` and
--     `readplaylist`, with the file as a list of bytes.
--   * Playlist/Calls.antt has sequences of calls of these functions, and what each call is on the list of
--     the paths and on the index at which `*pagehead` points; a call that is undefined there, such as
--     a page of a track that an addition has freed, is `none`. Its children prove that the heap gives
--     the replies of that list: First, Fresh, Named, Marks, MarkRemoval and Swaps the steps, Additions,
--     Changes and Pages the calls, Refine one of them, Bounds the length, and Sequence all calls;
--     Undefined and Crashes are about the calls that are undefined there.
--     Memory/Keeps.antt is about commands that allocate nothing at a given place, Playlist/Footprint.antt
--     about what the functions allocate, Playlist/Freed.antt about what the additions free, and
--     Playlist/Owned.antt about what is allocated in all.
--   * Playlist/Entries.antt says when a heap stores a play list of given entries. The other children
--     of Playlist.antt prove what one operation each does to such a list: Remove, Page, Swap, Append,
--     Prepend, Display, Delete and Find; Bounds is about the length of the list, and New, DropLast, LinkLast, Walks,
--     Unlink, Strings and Index have what several of them need.
--
-- The program (main.c). Main.antt is what `main` does with the play list, from `readplaylist` to
-- `saveplaylist`, with all that it prints: Main/Browse.antt has the pages, Main/Thin.antt the removals,
-- Main/Play.antt the swaps, Main/Run.antt joins them with Playlist/File/Reading.antt, the list that `readplaylist`
-- builds. Playlist/Content.antt is the view of a list by its paths that this takes. Main/Session.antt is
-- the part on the logger, as a step relation in which the logging thread of Logger/System.antt runs
-- between any two calls of `main`; its children have the proofs: Main/Session/Bounded.antt counts
-- the steps of a run, with Logger/Busy.antt for those of the logging thread.
--
-- Log messages (common.c, common.h). Common.antt has `set_log_type`, `log_message` and
-- `slog_message` in a build for a host: the line that goes to the console and to the file, and the
-- buffer that `slog_message` hands to `pushMessage`. The time and what `vprintf` prints are the fields
-- of `Line`. Common/Config.antt and Common/Route.antt have the theorems; Common/Route.antt joins them
-- with those on the queue through Logger/Send.antt.
--
-- Waiting with a timeout (condwait.c, condwait.h). Condwait.antt has the mutex as the thread that
-- holds it, and the deadline in 64-bit words. A mutex that another thread holds blocks the caller.
-- Condwait/Deadline.antt is about the arithmetic, Condwait/Lock.antt about the mutex.
--
-- Child processes (spwan.c, spwan.h). Exec.antt has the loops over `waitpid` and `read`; the answers
-- of these calls, and of `realloc`, are lists, and a list that ends early is a call that still waits.
-- Exec/Wait.antt, Exec/Collect.antt and Exec/Run.antt have the theorems. Exec/Pipe.antt is
-- `fork_dup2_exec`. Exec/Threads.antt is the step relation of the child, the thread of `exec_start` and
-- the thread in `exec_stop`, in which `fileno` and `read` are two steps, with its invariant and the conclusions in its children; Exec/Threads/Bounded.antt counts the steps.
--
-- Loader threads (threadload.c, threadload.h). ThreadLoad.antt has `load_thread`, `close_thread_log`,
-- `thload_run1` and `thload_run`: ThreadLoad/Files.antt is about the log and the texts, and
-- ThreadLoad/Rounds.antt about the rounds, with the waits of Condwait.antt. ThreadLoad/Stop.antt is the
-- step relation of such a thread and the one that stops it, ThreadLoad/Stop/Ends.antt how they end.
-- `run` is one of the three functions of threadload.c; `thload_run_notused` differs from `thload_run1`
-- only in how it waits. A message that the filter on levels drops is not formatted, so that a `%s`
-- with a wrong argument is undefined only when its level is admitted.
--
-- Base.antt has the names and lemmas that all parts share.
--
-- Not modelled: a signal that arrives while `main` runs; the code that the preprocessor leaves out, which
-- is all of spwan.c from line 251 on and in main.c the part that starts a child process.
pub mod Base
pub mod Common
pub mod Condwait
pub mod Exec
pub mod Logger
pub mod Main
pub mod Memory
pub mod Playlist
pub mod ThreadLoad
