-- ===== src/Exec/Threads/Safety.antt =====
-- What a job guarantees in every order of its steps, and where it fails.
use slogger.Exec.Threads.{
  overrun, ready, closes_fp, enters, holding, log_name, leaving, testing, reading, crashed, closed,
  Job, fp_open, test, call, runs, Reach, next,
}
use slogger.Base.{
  ◌<◌, some, none, ◌≤◌, ◌+◌, length, length-append, ℕ, ◌≡◌, refl, ◌≢◌, Bool, true, List, ◌++◌,
  arith, if◌then◌else◌, append-nil,
}
use slogger.Exec.Threads.Invariant.{drained, in_hand, Reach-Inv}
use slogger.Memory.{Text}

-- In every reachable state of the child, its thread and `exec_stop`, where a thread that has done
-- something undefined is not followed any further, the log is the beginning of what the child has
-- written to the pipe; in blocking mode it is all of it once the thread has left its loop; and the
-- thread has not used `th->fp` after `fclose` while the stop has not closed it.
pub Reach-log :
    {blocking : Bool} {s : Job}
    → Reach blocking s
    → ((rest : List ℕ) × (s.printed ≡ s.log ++ rest))
      × (blocking ≡ true → drained s.runner ≡ true → s.log ≡ s.printed)
      × (fp_open s.stopper ≡ true → s.runner ≢ crashed)
Reach-log {s = s} r =
    let v = Reach-Inv r in
    ((in_hand s.runner ++ s.pending, v.order), λ b e. ground (arith, append-nil s.log), v.safe)

-- In blocking mode, when `exec_stop` is about to close `th->fp` and the thread is before the test of
-- its loop, the descriptor can be closed between `fileno` and `read`: the read fails, and `fwrite`
-- gets its -1 for a size.
pub Reach-raced :
    {s : Job}
    → Reach true s
    → s.stopper ≡ ready
    → s.runner ≡ testing
    → (t : Job) × Reach true t × (t.runner ≡ overrun) × (t.stopper ≡ closed) × (t.log ≡ s.log)
Reach-raced {s} r c e =
    let v = Reach-Inv r in
    let tests : (if s.keeprunning then reading else leaving) ≡ reading = ground arith in
    let holds : (if fp_open s.stopper then holding else crashed) ≡ holding = ground arith in
    (
      _,
      next (next (next (next r (runs (test e))) (runs (call tests))) (closes_fp c))
          (runs (enters holds)),
      refl,
      refl,
      refl,
    )

-- The name of the log overruns its buffer exactly when the two strings have 256 bytes or more.
pub log_name-none :
    (log_path logfile : Text)
    → (log_name log_path logfile ≡ none → 256 ≤ length log_path + length logfile)
      × (256 ≤ length log_path + length logfile → log_name log_path logfile ≡ none)
unfolding log_name
log_name-none log_path logfile = (
  λ e. ground (arith, length-append log_path logfile),
  λ le. ground (arith, length-append log_path logfile),
)

pub log_name-some :
    (log_path logfile : Text)
    → length log_path + length logfile < 256
    → log_name log_path logfile ≡ some (log_path ++ logfile)
unfolding log_name
log_name-some log_path logfile lt = ground (arith, length-append log_path logfile)
