-- ===== src/Logger/Preserve/Logs.antt =====
-- The steps of the logging thread.
use slogger.Base.{◌≡◌, refl, true, false, List, [], ◌∷◌, ◌++◌, arith, append_assoc, ◌∙◌}
use slogger.Logger.{QueueData, Queue, must_wait, closed, message, garbage, dequeue_locked, Taken}
use slogger.Logger.Represents.{Represents}
use slogger.Logger.Refine.{dequeue_refines}
use slogger.Logger.Invariant.{Inv, Awake, Local}
use mathlib.Core.Path.{subst}
use slogger.Logger.Channel.{rest, first, blocks}
use slogger.Logger.System.{
  opening, failed, opened, not_opened, decide, after_take, ready, deciding, sleepy, waiting,
  leaving, writing, System, LoggerStep, lock, test, sleep, take, write,
}
use slogger.Logger.Preserve.Phases.{started, started-Represents, InPhase-change, leaving-started}

taken-Inv :
    {s : System} (xs : List QueueData) (r : Taken × Queue)
    → Inv s xs
    → s.logger ≡ leaving
    → started s.phase ≡ true
    → (must_wait s.queue ≡ blocks xs s.queue.shutdown)
    → r.0 ≡ first xs
    → Represents r.1 (rest xs)
    → r.1.shutdown ≡ s.queue.shutdown
    → Inv (after_take r s) (rest xs)
taken-Inv {s} [] (closed, q) v e st b f r same = record {
  in_phase = InPhase-change s.phase s.queue q [] [] st v.in_phase same r;
  awake = ground arith;
  local = (same ∙ ground arith, refl);
  order = ground arith;
  sound = v.sound;
}
taken-Inv {s} (x ∷ xs) (message d, q) v e st b f r same = record {
  in_phase = InPhase-change s.phase s.queue q (x ∷ xs) xs st v.in_phase same r;
  awake = ground arith;
  local = tt;
  order = ground arith;
  sound = v.sound;
}
taken-Inv [] (message d, q) v e st b f r same = cc
taken-Inv (x ∷ xs) (closed, q) v e st b f r same = cc
taken-Inv [] (garbage, q) v e st b f r same = cc
taken-Inv (x ∷ xs) (garbage, q) v e st b f r same = cc

pub take-Inv :
    {s : System} (xs : List QueueData)
    → Inv s xs
    → s.logger ≡ leaving
    → Inv (after_take (dequeue_locked s.queue) s) (rest xs)
take-Inv {s} xs v e =
    let go : must_wait s.queue ≡ false = subst (λ pc. Local pc s.queue xs) e v.local in
    let st : started s.phase ≡ true =
      leaving-started s.phase s.queue xs v.in_phase (subst (Awake s.phase) e v.awake) go in
    let (b, next_) = dequeue_refines xs (started-Represents s.phase st v.in_phase) in
    let (f, r, same) = next_ go in taken-Inv xs (dequeue_locked s.queue) v e st b f r same

opened-Inv :
    {s : System} {xs : List QueueData}
    → Inv s xs
    → s.logger ≡ opening
    → Inv (record s { logger = ready }) xs
opened-Inv v e = ground arith

not_opened-Inv :
    {s : System} {xs : List QueueData}
    → Inv s xs
    → s.logger ≡ opening
    → Inv (record s { logger = failed }) xs
not_opened-Inv v e = ground arith

pub lock-Inv :
    {s : System} {xs : List QueueData}
    → Inv s xs
    → s.logger ≡ ready
    → Inv (record s { logger = deciding }) xs
lock-Inv v e = ground arith

pub test-Inv :
    {s : System} {xs : List QueueData} → Inv s xs → s.logger ≡ deciding → Inv (decide s) xs
unfolding must_wait
test-Inv v e = ground arith

sleep-Inv :
    {s : System} {xs : List QueueData}
    → Inv s xs
    → s.logger ≡ sleepy
    → Inv (record s { logger = waiting }) xs
sleep-Inv v e = ground arith

pub write-Inv :
    {s : System} {xs : List QueueData} (d : QueueData)
    → Inv s xs
    → s.logger ≡ writing d
    → Inv (record s { logger = ready; written = s.written ++ (d ∷ []) }) xs
write-Inv {s} {xs} d v e = ground (arith, append_assoc s.written (d ∷ []) xs)

pub logs-Inv :
    {s t : System} {xs : List QueueData}
    → LoggerStep s t
    → Inv s xs
    → (ys : List QueueData) × Inv t ys
logs-Inv {xs} (opened e) v = (xs, opened-Inv v e)
logs-Inv {xs} (not_opened e) v = (xs, not_opened-Inv v e)
logs-Inv {xs} (lock e) v = (xs, lock-Inv v e)
logs-Inv {xs} (test e) v = (xs, test-Inv v e)
logs-Inv {xs} (sleep e) v = (xs, sleep-Inv v e)
logs-Inv {xs} (take e) v = (rest xs, take-Inv xs v e)
logs-Inv {xs} (write d e) v = (xs, write-Inv d v e)
