-- ===== src/Exec/Threads.antt =====
-- The thread of `exec_start`, the thread that calls `exec_stop`, and the child process.
pub mod Invariant
pub mod Safety
pub mod Bounded
use slogger.Base.{
  Option, some, none, ltb, ℕ, ◌<◌, ◌≡◌, Bool, true, false, List, [], ◌∷◌, ◌++◌, if◌then◌else◌,
  length,
}
use slogger.Memory.{Text}
use slogger.Exec.{Status, is_final, is_success, returned}

-- `thread_log_filename` of `load_exec`, a buffer of 256 bytes for two strings that may have 255 each;
-- `none` is a write behind it.
pub log_name : (log_path logfile : Text) → Option Text
log_name log_path logfile =
    let name = log_path ++ logfile in if ltb (length name) 256 then some name else none

-- Where `load_exec` stands.
pub data RunnerPc : Type 0 where
  opening : RunnerPc  -- before `fopen` of the log
  no_log : RunnerPc  -- has returned NULL, since the log could not be opened
  testing : RunnerPc  -- in `exec_run`, before the test of `keeprunning`
  reading : RunnerPc  -- before `fileno(th->fp)`
  holding : RunnerPc  -- has the descriptor, before `read`
  in_read : RunnerPc  -- in the system call
  writing : List ℕ → RunnerPc  -- before `fwrite`
  leaving : RunnerPc  -- behind `exec_run`
  ended : RunnerPc  -- has closed the log and returned
  crashed : RunnerPc  -- has used `th->fp` after `fclose`
  overrun : RunnerPc  -- has written behind the buffer for the name, or read behind the one for `read`
  misprinted : RunnerPc  -- has printed `pthread_self()` with `%s`

-- Where the thread stands that has called `exec_start` and calls `exec_stop`.
pub data StopPc : Type 0 where
  started : StopPc  -- `exec_start` has returned
  flagged : StopPc  -- has cleared `keeprunning`, not blocking
  ready : StopPc  -- before `fclose(fp)` of `fork_dup2_exec_result`
  closed : StopPc  -- in the loop over `waitpid`
  gave_up : StopPc  -- `exec_stop` has returned, the child without success
  joining : StopPc  -- in `pthread_join`
  joined : StopPc

pub data Child : Type 0 where
  alive : Child
  dead : Status → Child

-- `debug` says whether messages of level `LOG_DEBUG` are admitted. `printed` is a ghost: all that the
-- child has written to the pipe.
pub record Job : Type 0 where
  pub log_path : Text
  pub logfile : Text
  pub debug : Bool
  pub blocking : Bool
  pub keeprunning : Bool
  pub runner : RunnerPc
  pub stopper : StopPc
  pub child : Child
  pub pending : List ℕ
  pub printed : List ℕ
  pub log : List ℕ

-- Behind `exec_start`.
abbrev pub start : (log_path logfile : Text) → (debug blocking : Bool) → Job
start log_path logfile debug blocking = record {
  log_path = log_path;
  logfile = logfile;
  debug = debug;
  blocking = blocking;
  keeprunning = true;
  runner = opening;
  stopper = started;
  child = alive;
  pending = [];
  printed = [];
  log = [];
}

-- `fclose(fp)` is done before the loop over `waitpid`.
abbrev pub fp_open : StopPc → Bool
fp_open started = true
fp_open flagged = true
fp_open ready = true
fp_open _ = false

-- What `exec_stop` does first.
abbrev pub begin_stop : Job → Job
begin_stop s =
    if s.blocking
    then record s { stopper = ready }
    else record s { stopper = flagged; keeprunning = false }

-- A step of the thread in `load_exec`. A `read` returns at most 99 bytes, in order; at the end of the
-- data it returns 0 once the child, the only one to hold the other end, has ended. It may also fail,
-- and does so if the descriptor has been closed since `fileno` (and stands for no other file): then
-- `fwrite` takes the -1 for a size.
pub data RunnerStep (s : Job) : Job → Type 0 where
  overruns :
      s.runner ≡ opening
      → log_name s.log_path s.logfile ≡ none
      → RunnerStep s (record s { runner = overrun })
  opens :
      (name : Text)
      → s.runner ≡ opening
      → log_name s.log_path s.logfile ≡ some name
      → RunnerStep s (record s { runner = testing })
  cannot_open :
      (name : Text)
      → s.runner ≡ opening
      → log_name s.log_path s.logfile ≡ some name
      → RunnerStep s (record s { runner = no_log })
  test :
      s.runner ≡ testing
      → RunnerStep s (record s { runner = if s.keeprunning then reading else leaving })
  call :
      s.runner ≡ reading
      → RunnerStep s (record s { runner = if fp_open s.stopper then holding else crashed })
  enters :
      s.runner ≡ holding
      → RunnerStep s (record s { runner = if fp_open s.stopper then in_read else overrun })
  reads :
      (c rest : List ℕ)
      → s.runner ≡ in_read
      → s.pending ≡ c ++ rest
      → 0 < length c
      → length c < 100
      → RunnerStep s (record s { runner = writing c; pending = rest })
  fails : s.runner ≡ in_read → RunnerStep s (record s { runner = overrun })
  at_end :
      (status : Status)
      → s.runner ≡ in_read
      → s.pending ≡ []
      → s.child ≡ dead status
      → RunnerStep s (record s { runner = leaving })
  writes :
      (c : List ℕ)
      → s.runner ≡ writing c
      → RunnerStep s (record s { runner = testing; log = s.log ++ c })
  closes :
      s.runner ≡ leaving
      → RunnerStep s (record s { runner = if s.debug then misprinted else ended })

-- The thread has returned, so that `pthread_join` can.
abbrev pub is_over : RunnerPc → Bool
is_over no_log = true
is_over ended = true
is_over _ = false

-- A step of the child, or of the thread in `exec_stop`. Reports of a child that is stopped and
-- continued change nothing here. `SIGINT` may end the child at any time after it is sent, as the
-- child may end of itself.
pub data Step (s : Job) : Job → Type 0 where
  runs : {t : Job} → RunnerStep s t → Step s t
  prints :
      (bs : List ℕ)
      → s.child ≡ alive
      → Step s (record s { pending = s.pending ++ bs; printed = s.printed ++ bs })
  dies :
      (status : Status)
      → is_final status ≡ true
      → s.child ≡ alive
      → Step s (record s { child = dead status })
  stops : s.stopper ≡ started → Step s (begin_stop s)
  interrupts : s.stopper ≡ flagged → Step s (record s { stopper = ready })
  closes_fp : s.stopper ≡ ready → Step s (record s { stopper = closed })
  waits :
      (status : Status)
      → s.stopper ≡ closed
      → s.child ≡ dead status
      → Step s (record s { stopper = if is_success (returned status) then joining else gave_up })
  joins : s.stopper ≡ joining → is_over s.runner ≡ true → Step s (record s { stopper = joined })

pub data Reach (blocking : Bool) : Job → Type 0 where
  here :
      (log_path logfile : Text) (debug : Bool)
      → Reach blocking (start log_path logfile debug blocking)
  next : {s t : Job} → Reach blocking s → Step s t → Reach blocking t
