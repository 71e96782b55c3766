-- ===== src/Logger/Drain.antt =====
-- Once the stop is signalled the logging thread, by its own steps, writes what is left and ends.
use slogger.Base.{
  ◌≢◌, ℕ, suc, ◌+◌, ◌*◌, ◌≤◌, ◌≡◌, refl, true, false, List, [], ◌∷◌, arith, ◌∙◌, length, append-nil,
}
use slogger.Logger.Channel.{first}
use slogger.Logger.{Taken, closed, message, garbage, QueueData, Queue, must_wait, dequeue_locked}
use slogger.Logger.Refine.{dequeue_refines}
use slogger.Logger.Invariant.{Inv}
use slogger.Logger.Preserve.Logs.{take-Inv, lock-Inv, test-Inv, write-Inv}
use slogger.Logger.System.{
  opening, failed, LoggerPc, ready, deciding, leaving, writing, ended, signalled, System,
  LoggerStep, lock, test, take, write, Drains, done, step, decide, after_take,
}

-- The logging thread ends within `k` steps, and its file then holds every accepted message.
pub record Drained (s : System) (k : ℕ) : Type 0 where
  pub count : ℕ
  pub last : System
  pub few : count ≤ k
  pub path : Drains last count s
  pub over : last.logger ≡ ended
  pub kept : last.accepted ≡ s.accepted
  pub all_written : last.written ≡ last.accepted

before :
    {s t : System} {k : ℕ}
    → LoggerStep s t
    → t.accepted ≡ s.accepted
    → Drained t k
    → Drained s (suc k)
before st same d = record {
  count = suc d.count;
  last = d.last;
  few = omega (arith, d.few);
  path = step st d.path;
  over = d.over;
  kept = d.kept ∙ same;
  all_written = d.all_written;
}

no_wait : (q : Queue) → q.shutdown ≡ true → must_wait q ≡ false
unfolding must_wait
no_wait q h = ground arith

at_end : {s : System} {xs : List QueueData} → Inv s xs → s.logger ≡ ended → Drained s 0
at_end {s} {xs} v e = record {
  count = 0;
  last = s;
  few = omega arith;
  path = done;
  over = e;
  kept = refl;
  all_written = ground (arith, append-nil s.written);
}

after_take-closed :
    (r : Taken × Queue) (s : System)
    → r.0 ≡ closed
    → ((after_take r s).logger ≡ ended) × ((after_take r s).accepted ≡ s.accepted)
after_take-closed (closed, q) s e = (refl, refl)
after_take-closed (message d, q) s e = cc
after_take-closed (garbage, q) s e = cc

after_take-message :
    (r : Taken × Queue) (s : System) (d : QueueData)
    → r.0 ≡ message d
    → ((after_take r s).logger ≡ writing d)
      × ((after_take r s).accepted ≡ s.accepted)
      × ((after_take r s).phase ≡ s.phase)
after_take-message (closed, q) s d e = cc
after_take-message (message d', q) s d e = ground arith
after_take-message (garbage, q) s d e = cc

module _ {s : System} {xs : List QueueData} (v : Inv s xs) (stop : s.phase ≡ signalled) where
  shut : s.queue.shutdown ≡ true
  shut = ground arith

  got : s.logger ≡ leaving → (dequeue_locked s.queue).0 ≡ first xs
  got e = ((dequeue_refines xs (ground arith)).1 (no_wait s.queue shut)).0

  decided : s.logger ≡ deciding → (decide s).logger ≡ leaving
  decided e = rw (no_wait s.queue shut)

abbrev FromLeaving : List QueueData → ℕ → Type 0
FromLeaving xs k = (s : System) → Inv s xs → s.phase ≡ signalled → s.logger ≡ leaving → Drained s k

module _ {xs : List QueueData} {k : ℕ} (go : FromLeaving xs k) {s : System} (v : Inv s xs)
    (stop : s.phase ≡ signalled) where
  from_deciding : s.logger ≡ deciding → Drained s (suc k)
  from_deciding e = before (test e) refl (go (decide s) (test-Inv v e) stop (decided v stop e))

module _ {xs : List QueueData} {k : ℕ} (go : FromLeaving xs k) {s : System} (v : Inv s xs)
    (stop : s.phase ≡ signalled) where
  from_ready : s.logger ≡ ready → Drained s (suc (suc k))
  from_ready e = before (lock e) refl (from_deciding go (lock-Inv v e) stop refl)

module _ {xs : List QueueData} {k : ℕ} (go : FromLeaving xs k) {s : System} (v : Inv s xs)
    (stop : s.phase ≡ signalled) where
  from_writing : (d : QueueData) → s.logger ≡ writing d → Drained s (suc (suc (suc k)))
  from_writing d e = before (write d e) refl (from_ready go (write-Inv d v e) stop refl)

weaken : {s : System} (j k : ℕ) → j ≤ k → Drained s j → Drained s k
weaken j k le d = record {
  count = d.count;
  last = d.last;
  few = omega (arith, d.few);
  path = d.path;
  over = d.over;
  kept = d.kept;
  all_written = d.all_written;
}

-- From behind the loop: a message is written and the loop comes round again, or the thread ends.
from_leaving : (xs : List QueueData) → FromLeaving xs (4 * length xs + 1)
from_leaving [] s v stop e =
    let (ended_, same) = after_take-closed (dequeue_locked s.queue) s (got v stop e) in
    before (take e) same (at_end (take-Inv [] v e) ended_)
from_leaving (x ∷ xs) s v stop e =
    let (holds, same, phase) = after_take-message (dequeue_locked s.queue) s x (got v stop e) in
    weaken _ (4 * length (x ∷ xs) + 1) (omega arith) (
      before (take e) same
        (from_writing (from_leaving xs) (take-Inv (x ∷ xs) v e) (phase ∙ stop) x holds))

pub drained :
    {s : System} {xs : List QueueData} (pc : LoggerPc)
    → s.logger ≡ pc
    → Inv s xs
    → s.phase ≡ signalled
    → s.logger ≢ opening
    → s.logger ≢ failed
    → Drained s (4 * length xs + 4)
drained {s} {xs} ready e v stop op fa =
    weaken _ _ (omega arith) (from_ready (from_leaving xs) v stop e)
drained {s} {xs} deciding e v stop op fa =
    weaken _ _ (omega arith) (from_deciding (from_leaving xs) v stop e)
drained {s} {xs} leaving e v stop op fa = weaken _ _ (omega arith) (from_leaving xs s v stop e)
drained {s} {xs} (writing d) e v stop op fa =
    weaken _ _ (omega arith) (from_writing (from_leaving xs) v stop d e)
drained {s} {xs} ended e v stop op fa = weaken 0 _ (omega arith) (at_end v e)
drained {s} {xs} _ e v stop op fa = absurd (ground arith)
