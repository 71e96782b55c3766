-- ===== src/Main/Session.antt =====
-- `main` of main.c, the part on the logger: it prepares the condition variable, starts the logger,
-- logs two messages, waits 5 seconds and 10 milliseconds, logs a third, and stops both. The logging
-- thread of Logger/System.antt runs between any two of its calls.
pub mod Invariant
pub mod Preserve
pub mod Safety
pub mod Ends
pub mod Bounded
mod Tests
use slogger.Base.{ℕ, pos, ◌≡◌, Bool, true, false, List, [], ◌∷◌, ◌++◌}
use slogger.Logger.{
  QueueData, Queue, Pushed, enqueue_locked, set_capacity, allocate, close, release, out_of_memory,
  sent,
}
use slogger.Logger.System.{
  LoggerPc, waiting, ready, Phase, created, sized, running, flagged, signalled, joined, System,
  LoggerStep, mutex_free, wake, returned, after_push,
}
use slogger.Logger.System
use slogger.Common.{
  LogType, adbshell, info, Line, file_line, strlen, Slogged, silent, no_memory, overflow, pushed,
  slog_message,
}
use slogger.Condwait.{
  Timespec, Condwait, Call, back, and_then, condwait_int, condwait_wait, condwait_stop,
  condwait_signal,
}

-- The thread of `main`, as the holder of a mutex.
abbrev pub main_thread : ℕ
main_thread = 0

-- `intHandler`.
pub int_handler : Condwait → Call
int_handler th = condwait_signal main_thread th

-- What `main` calls between the start and the stop of the logger: `slog_message` at `LOG_INFO`, with
-- the results of its two calls of `malloc`, and `condwait.wait`, with the result of its wait.
pub data Action : Type 0 where
  say : (store_ok record_ok : Bool) → Line → Action
  rest : (seconds ms result : ℕ) → Action

-- The calls of `main`; there is no loader thread to start or stop in between.
abbrev pub script : (x y z : Line) → (result : ℕ) → List Action
script x y z result = say true true x ∷ say true true y ∷ rest 5 10 result ∷ say true true z ∷ []

-- `stopped` says whether `condwait.stop` has returned.
pub record Program : Type 0 where
  pub system : System
  pub condwait : Call
  pub todo : List Action
  pub stopped : Bool

-- Behind `condwait.init` and the `pthread_create` of `slogger.start`.
abbrev pub begin : Timespec → List Action → Program
begin now actions = record {
  system = System.start;
  condwait = back 0 (condwait_int now);
  todo = actions;
  stopped = false;
}

-- The record that `slog_message` makes of a line.
abbrev pub log_record : Line → QueueData
log_record x = record { str = file_line info x; size = strlen (file_line info x) }

-- A `slog_message` that comes to the given end.
abbrev pub after_say : QueueData → Slogged → System → System
after_say d silent s = s
after_say d no_memory s = s
after_say d overflow s = record s { overrun = true }
after_say d (pushed (out_of_memory, q)) s = record s { queue = q }
after_say d (pushed (sent p warned, q)) s = after_push d (p, q) s

-- `console_loglevel` is `LOG_INFO`, and `log_type` is zero at the start.
abbrev pub log_info : (store_ok record_ok : Bool) → Line → Queue → Slogged
log_info store_ok record_ok x q = (slog_message adbshell (pos 2) (pos 2) store_ok record_ok x q).1

pub data ProgramStep (p : Program) : Program → Type 0 where
  logs : {t : System} → LoggerStep p.system t → ProgramStep p (record p { system = t })
  spurious :
      p.system.logger ≡ waiting
      → ProgramStep p (record p { system = record p.system { logger = ready } })
  size_queue :
      p.system.phase ≡ created
      → ProgramStep p (record p {
        system = record p.system { queue = set_capacity p.system.queue; phase = sized };
      })
  make_array :
      p.system.phase ≡ sized
      → ProgramStep p (record p {
        system = record p.system { queue = allocate p.system.queue; phase = running };
      })
  speak :
      {store_ok record_ok : Bool} {x : Line} {actions : List Action}
      → p.system.phase ≡ running
      → p.todo ≡ say store_ok record_ok x ∷ actions
      → mutex_free p.system.logger ≡ true
      → ProgramStep p (record p {
        system = after_say (log_record x) (log_info store_ok record_ok x p.system.queue) p.system;
        todo = actions;
      })
  pause :
      {seconds ms result : ℕ} {actions : List Action}
      → p.system.phase ≡ running
      → p.todo ≡ rest seconds ms result ∷ actions
      → ProgramStep p (record p {
        condwait = and_then p.condwait (condwait_wait main_thread result (pos seconds) (pos ms));
        todo = actions;
      })
  flag :
      p.system.phase ≡ running
      → p.todo ≡ []
      → ProgramStep p
          (record p { system = record p.system { queue = close p.system.queue; phase = flagged } })
  signal :
      p.system.phase ≡ flagged
      → mutex_free p.system.logger ≡ true
      → ProgramStep p (record p {
        system = record p.system { logger = wake p.system.logger; phase = signalled };
      })
  join :
      p.system.phase ≡ signalled
      → returned p.system.logger ≡ true
      → ProgramStep p
          (record p { system = record p.system { queue = release p.system.queue; phase = joined } })
  stop :
      p.system.phase ≡ joined
      → p.stopped ≡ false
      → ProgramStep p
          (record p { condwait = and_then p.condwait (condwait_stop main_thread); stopped = true })

-- The states of a run from the given one.
pub data Runs (start : Program) : Program → Type 0 where
  here : Runs start start
  next : {p p' : Program} → Runs start p → ProgramStep p p' → Runs start p'
