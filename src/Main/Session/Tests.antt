-- ===== src/Main/Session/Tests.antt =====
-- A run of the logger part of `main`, and the theorems at it.
use slogger.Base.{
  true, ◌≤◌, ◌+◌, ◌*◌, ◌⊎◌, length, ℕ, pos, none, ◌≡◌, refl, ◌≢◌, List, [], ◌∷◌, ◌++◌, arith, false,
}
use slogger.Main.Session.Bounded.{steps, wakeups, CanStep, Runs-Bounded}
use slogger.Main.Session.{
  ProgramStep, Action, Program, Runs, begin, script, log_record, logs, size_queue, make_array,
  speak, pause, flag, signal, join, stop, here, next,
}
use slogger.Main.Session.Safety.{Loggable, logged, Runs-accepted, session_lem}
use slogger.Logger.System.{file_text, opened, lock, test, take, write}
use slogger.Logger.{
  enqueue_locked, enqueue, push_message, must_wait, take_at, dequeue_locked, set_capacity, allocate,
  close, release,
}
use slogger.Common.{Line, slog_message}
use slogger.Condwait.{Timespec, back, extend}
use slogger.Main.Session.Invariant.{messages}

abbrev line : ℕ → Line
line n = record { stamp = b'0' ∷ []; tag = b'G' ∷ []; body = n ∷ [] }

abbrev now : Timespec
now = record { sec = 1000; nsec = 995000000 }

abbrev calls : List Action
calls = script (line 65) (line 66) (line 67) 110

record Run : Type 0 where
  last : Program
  run : Runs (begin now calls) last

infixl 20 ◌▸◌
abbrev ◌▸◌ :
    {p p' : Program} → Runs (begin now calls) p → ProgramStep p p' → Runs (begin now calls) p'
r ▸ st = next r st

-- All three messages, before the logging thread has opened its file.
abbrev spoken : Run
unfolding set_capacity allocate slog_message push_message enqueue enqueue_locked
spoken = record {
  last = _;
  run =
      here
      ▸ size_queue refl
      ▸ make_array refl
      ▸ speak refl refl refl
      ▸ speak refl refl refl
      ▸ pause refl refl
      ▸ speak refl refl refl;
}

Runs-accepted_example :
    spoken.last.system.accepted ++ messages spoken.last.todo
    ≡ log_record (line 65) ∷ log_record (line 66) ∷ log_record (line 67) ∷ []
Runs-accepted_example = Runs-accepted now (omega arith) (ground arith) spoken.run

-- The same to the end of `main`: the logging thread runs when it has been stopped.
abbrev finished : Run
unfolding spoken close must_wait dequeue_locked take_at release
finished = record {
  last = _;
  run =
      spoken.run
      ▸ flag refl refl
      ▸ signal refl refl
      ▸ logs (opened refl)
      ▸ logs (lock refl)
      ▸ logs (test refl)
      ▸ logs (take refl)
      ▸ logs (write (log_record (line 65)) refl)
      ▸ logs (lock refl)
      ▸ logs (test refl)
      ▸ logs (take refl)
      ▸ logs (write (log_record (line 66)) refl)
      ▸ logs (lock refl)
      ▸ logs (test refl)
      ▸ logs (take refl)
      ▸ logs (write (log_record (line 67)) refl)
      ▸ logs (lock refl)
      ▸ logs (test refl)
      ▸ logs (take refl)
      ▸ join refl refl
      ▸ stop refl refl;
}

line-Loggable : (n : ℕ) → n ≢ 0 → Loggable (line n)
line-Loggable n ne = ground arith

session_lem_example :
    (finished.last.condwait
      ≡ back 0 (record { holder = none; alive = false; timeout = extend now (pos 5) (pos 10) }))
    × (file_text finished.last.system.written
        ≡ logged (line 65) ++ (logged (line 66) ++ logged (line 67)))
unfolding finished
session_lem_example =
    session_lem now (line 65) (line 66) (line 67) 110 (line-Loggable 65 (omega arith))
      (line-Loggable 66 (omega arith)) (line-Loggable 67 (omega arith)) finished.run refl (λ e. cc)

Runs-Bounded_example :
    (steps spoken.run ≤ 8 * length calls + 52 + 4 * wakeups spoken.run)
    × ((spoken.last.stopped ≡ true) ⊎ CanStep spoken.last)
Runs-Bounded_example = Runs-Bounded now (omega arith) (ground arith) spoken.run
