-- ===== src/Exec/Threads/Invariant.antt =====
-- What holds of a job between two steps.
use slogger.Exec.Threads.{
  misprinted, overruns, enters, fails, RunnerPc, writing, leaving, ended, crashed, joined, Child,
  alive, dead, Job, fp_open, RunnerStep, opens, cannot_open, test, call, reads, at_end, writes,
  closes, is_over, Step, runs, prints, dies, stops, interrupts, closes_fp, waits, joins, Reach,
  here, next,
}
use slogger.Base.{ℕ, ◌≡◌, ◌≢◌, Bool, true, false, List, [], ◌++◌, arith, append_assoc, ap}

-- The bytes that the runner has read and not written yet.
abbrev pub in_hand : RunnerPc → List ℕ
in_hand (writing c) = c
in_hand _ = []

-- The runner has left its loop at the end of the data.
abbrev pub drained : RunnerPc → Bool
drained leaving = true
drained ended = true
drained misprinted = true
drained _ = false

abbrev pub is_dead : Child → Bool
is_dead alive = false
is_dead (dead _) = true

pub record Inv (blocking : Bool) (s : Job) : Type 0 where
  pub mode : s.blocking ≡ blocking
  pub order : s.printed ≡ s.log ++ (in_hand s.runner ++ s.pending)
  pub keeps : blocking ≡ true → s.keeprunning ≡ true
  pub whole :
      s.keeprunning ≡ true → drained s.runner ≡ true → (s.pending ≡ []) × (is_dead s.child ≡ true)
  pub safe : fp_open s.stopper ≡ true → s.runner ≢ crashed
  pub waited : s.stopper ≡ joined → is_over s.runner ≡ true

runs-Inv : {blocking : Bool} {s t : Job} → RunnerStep s t → Inv blocking s → Inv blocking t
runs-Inv {s = s} (overruns e n) v = ground arith
runs-Inv {s = s} (opens name e n) v = ground arith
runs-Inv {s = s} (cannot_open name e n) v = ground arith
runs-Inv {s = s} (test e) v = ground arith
runs-Inv {s = s} (call e) v = ground arith
runs-Inv {s = s} (enters e) v = ground arith
runs-Inv {s = s} (fails e) v = ground arith
runs-Inv {s = s} (reads c rest e p a b) v = ground arith
runs-Inv {s = s} (at_end status e p d) v = ground arith
runs-Inv {s = s} (writes c e) v = ground (arith, append_assoc s.log c s.pending)
runs-Inv {s = s} (closes e) v = ground arith

pub Step-Inv : {blocking : Bool} {s t : Job} → Step s t → Inv blocking s → Inv blocking t
Step-Inv (runs r) v = runs-Inv r v
Step-Inv {s = s} (prints bs e) v =
    let out = ap (λ l. l ++ bs) v.order in
    ground (
      arith,
      append_assoc (in_hand s.runner) s.pending bs,
      append_assoc s.log (in_hand s.runner ++ s.pending) bs,
    )
Step-Inv {s = s} (dies status f e) v = ground arith
Step-Inv {s = s} (stops e) v = ground arith
Step-Inv {s = s} (interrupts e) v = ground arith
Step-Inv {s = s} (closes_fp e) v = ground arith
Step-Inv {s = s} (waits status e d) v = ground arith
Step-Inv {s = s} (joins e o) v = ground arith

pub Reach-Inv : {blocking : Bool} {s : Job} → Reach blocking s → Inv blocking s
Reach-Inv {blocking} (here log_path logfile debug) = ground arith
Reach-Inv (next r st) = Step-Inv st (Reach-Inv r)
