-- ===== src/Logger/Preserve.antt =====
-- Every step of the logger keeps its invariant.
mod Phases
pub mod Logs
mod Push
mod Stop
use Logs.{logs-Inv}
use Push.{push-cases, stored-Inv}
use Stop.{make_array-Inv, flag-Inv, join-Inv}
use slogger.Base.{
  ℕ, ◌≡◌, refl, ◌≢◌, Bool, true, false, List, [], ◌∷◌, ◌++◌, arith, append_assoc, append-nil, ◌⊎◌,
  inl, inr, ◌∙◌, ◌==◌, ◌||◌, Bool-cases,
}
use slogger.Logger.{
  QueueData, Queue, initial, stored, rejected, invalid, enqueue_locked, must_wait, closed, message,
  garbage, dequeue_locked, set_capacity, allocate, close, release, Pushed, Taken, put,
}
use slogger.Logger.Represents.{Represents}
use slogger.Logger.Refine.{
  enqueue_refines, dequeue_refines, start-Represents, enqueue-refused, enqueue-stored,
}
use slogger.Logger.Invariant.{Inv, InPhase, Awake, Local, in_hand}
use mathlib.Core.Path.{subst}
use slogger.Logger.Channel
use slogger.Logger.Channel.{rest, first, blocks}
use slogger.Logger.System.{
  after_push, after_take, mutex_free, may_push, wake, LoggerPc, ready, deciding, sleepy, waiting,
  leaving, writing, ended, crashed, Phase, created, sized, running, flagged, signalled, joined,
  System, start, LoggerStep, lock, test, sleep, take, write, Step, logs, spurious, push, size_queue,
  make_array, flag, signal, join, Reach, here, next,
}

Inv-start : Inv start []
Inv-start = record { in_phase = (refl, refl); awake = tt; local = tt; order = refl; sound = refl }

pub Step-Inv :
    {s t : System} {xs : List QueueData} → Step s t → Inv s xs → (ys : List QueueData) × Inv t ys
unfolding must_wait set_capacity close
Step-Inv (logs st) v = logs-Inv st v
Step-Inv {s} {xs} (spurious e) v = (xs, ground arith)
Step-Inv {s} {xs} (push d free may) v = elim (push-cases d v may) [
  | inl e ↦ (xs, rw e v)
  | inr (e, r, o, st) ↦ (xs ++ (d ∷ []), rw e (stored-Inv d v free r o st))
]
Step-Inv {s} {xs} (size_queue e) v = (xs, ground arith)
Step-Inv {s} {xs} (make_array e) v = (xs, make_array-Inv v e)
Step-Inv {s} {xs} (flag e) v = (xs, flag-Inv v e)
Step-Inv {s} {xs} (signal e free) v = (xs, ground arith)
Step-Inv {s} {xs} (join e e') v = (xs, join-Inv v e e')

pub Reach-Inv : {s : System} → Reach s → (xs : List QueueData) × Inv s xs
Reach-Inv here = ([], Inv-start)
Reach-Inv (next r st) = Step-Inv st (Reach-Inv r).1
