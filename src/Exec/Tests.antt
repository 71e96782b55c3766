-- ===== src/Exec/Tests.antt =====
-- A child that writes two chunks, and the theorems at it.
use slogger.Exec.Wait.{Stops, fork_dup2_exec_result-returned, exec_stop_lem}
use slogger.Exec.Threads.Invariant.{drained}
use slogger.Exec.Threads.Bounded
use slogger.Base.{
  ◌≤◌, ◌+◌, ◌*◌, length, none, ◌++◌, Bool, ◌≢◌, ℕ, ◌≡◌, refl, true, false, some, List, [], ◌∷◌,
  arith,
}
use slogger.Exec.Pipe
use slogger.Exec.Threads
use slogger.Exec.Threads.Safety
use slogger.Exec.{
  Status, exited, killed, stopped, continued, failure, status, returned, fork_dup2_exec_result,
  exec_stop, bytes, eof, exec, finished,
}
use slogger.Exec.Collect.{output, exec-reads}

abbrev chunks : List (List ℕ)
chunks = (104 ∷ 105 ∷ []) ∷ (33 ∷ []) ∷ []

abbrev paused : List Status
paused = stopped 19 ∷ continued ∷ []

fork_dup2_exec_result-returned_example :
    fork_dup2_exec_result
      (status (stopped 19) ∷ status continued ∷ status (exited 0) ∷ failure ∷ [])
    ≡ (returned (exited 0), 1)
fork_dup2_exec_result-returned_example =
    fork_dup2_exec_result-returned paused (exited 0) (failure ∷ []) (refl, (refl, tt)) refl

exec_stop_lem_example :
    Stops false paused
      (killed 2)
      (exec_stop false (status (stopped 19) ∷ status continued ∷ status (killed 2) ∷ []))
exec_stop_lem_example = exec_stop_lem false paused (killed 2) [] (refl, (refl, tt)) refl

exec-reads_example :
    exec
      ((bytes (104 ∷ 105 ∷ []), true) ∷ (bytes (33 ∷ []), true) ∷ (eof, true) ∷ [])
      (status (exited 0) ∷ [])
    ≡ finished (some 3) (output (104 ∷ 105 ∷ 33 ∷ []))
exec-reads_example = exec-reads chunks true [] [] (exited 0) [] (omega arith) tt refl

abbrev quiet : Pipe.Process
quiet = record { open_ends = []; stdin = none; stdout = none; ignored = [] }

fork_dup2_exec-IsJoined_example : Pipe.IsJoined b'r' (Pipe.fork_dup2_exec true b'r' quiet)
fork_dup2_exec-IsJoined_example = Pipe.fork_dup2_exec-IsJoined b'r' quiet refl refl refl

record Run : Type 0 where
  last : Threads.Job
  reach : Threads.Reach true last

infixl 20 ◌▸◌
abbrev ◌▸◌ : {s t : Threads.Job} → Threads.Reach true s → Threads.Step s t → Threads.Reach true t
r ▸ st = Threads.Reach.next r st

abbrev log_path : List ℕ
log_path = b'/' ∷ []

abbrev logfile : List ℕ
logfile = b'l' ∷ []

-- The child has printed two bytes, which the thread has logged; then the stop has closed the pipe.
abbrev closed : Run
closed = record {
  last = _;
  reach =
      Threads.Reach.here log_path logfile false
      ▸ Threads.runs (
          Threads.opens (log_path ++ logfile) refl
            (Safety.log_name-some log_path logfile (omega arith)))
      ▸ Threads.prints (104 ∷ 105 ∷ []) refl
      ▸ Threads.runs (Threads.test refl)
      ▸ Threads.runs (Threads.call refl)
      ▸ Threads.runs (Threads.enters refl)
      ▸ Threads.runs (Threads.reads (104 ∷ 105 ∷ []) [] refl refl (omega arith) (omega arith))
      ▸ Threads.runs (Threads.writes (104 ∷ 105 ∷ []) refl)
      ▸ Threads.stops refl
      ▸ Threads.closes_fp refl;
}

Reach-log_example :
    ((rest : List ℕ) × (closed.last.printed ≡ closed.last.log ++ rest))
    × (◌≡◌ {A = Bool} true true
        → drained closed.last.runner ≡ true
        → closed.last.log ≡ closed.last.printed)
    × (Threads.fp_open closed.last.stopper ≡ true → closed.last.runner ≢ Threads.crashed)
Reach-log_example = Safety.Reach-log closed.reach

Reach-Bounded_example :
    (Bounded.steps closed.reach
      ≤ 12 + 5 * length closed.last.printed + Bounded.outputs closed.reach)
    × Bounded.Goes closed.last
Reach-Bounded_example = Bounded.Reach-Bounded closed.reach
