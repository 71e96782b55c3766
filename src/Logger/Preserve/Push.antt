-- ===== src/Logger/Preserve/Push.antt =====
-- An `enqueue` by a producer.
use slogger.Base.{
  ◌≡◌, refl, true, false, List, [], ◌∷◌, ◌++◌, arith, append_assoc, ◌⊎◌, inl, inr, ◌==◌, ◌||◌,
  Bool-cases,
}
use slogger.Logger.{QueueData, Queue, stored, rejected, enqueue_locked, put}
use slogger.Logger.Represents.{Represents}
use slogger.Logger.Invariant.{Inv, InPhase, Awake, Local, in_hand}
use slogger.Logger.Refine.{enqueue-refused, enqueue-stored}
use slogger.Logger.System.{after_push, mutex_free, may_push, wake, LoggerPc, Phase, System}
use slogger.Logger.Preserve.Phases.{started, started-Represents, InPhase-change}

-- What `enqueue` does in a state of the system: nothing, or it stores in a started queue.
abbrev pub PushCase : QueueData → System → List QueueData → Type 0
PushCase d s xs =
    (enqueue_locked d s.queue ≡ (rejected, s.queue))
    ⊎ ((enqueue_locked d s.queue ≡ (stored, put d s.queue))
        × Represents (put d s.queue) (xs ++ (d ∷ []))
        × (s.queue.shutdown ≡ false)
        × (started s.phase ≡ true))

idle-refuses :
    (p : Phase) (q : Queue) (xs : List QueueData)
    → may_push p ≡ true
    → started p ≡ false
    → InPhase p q xs
    → (q.size == q.capacity || q.shutdown) ≡ true
idle-refuses p q xs m n i = ground arith

pub push-cases :
    {s : System} {xs : List QueueData} (d : QueueData)
    → Inv s xs
    → may_push s.phase ≡ true
    → PushCase d s xs
push-cases {s} {xs} d v may =
    elim (Bool-cases (s.queue.size == s.queue.capacity || s.queue.shutdown)) [
      | inl full ↦ inl (enqueue-refused d full)
      | inr room ↦ elim (Bool-cases (started s.phase)) [
        | inl st ↦
            let (e, r) = enqueue-stored d (started-Represents s.phase st v.in_phase) room in
            inr (e, r, ground arith, st)
        | inr idle ↦ let full = idle-refuses s.phase s.queue xs may idle v.in_phase in cc
      ]
    ]

Awake-wake : (p : Phase) (pc : LoggerPc) → Awake p pc → Awake p (wake pc)
Awake-wake p pc w = ground arith

Local-wake :
    (pc : LoggerPc) (q q' : Queue) (xs ys : List QueueData)
    → mutex_free pc ≡ true
    → q.shutdown ≡ false
    → Local pc q xs
    → Local (wake pc) q' ys
Local-wake pc q q' xs ys f o l = ground arith

in_hand-wake : (pc : LoggerPc) → in_hand (wake pc) ≡ in_hand pc
in_hand-wake pc = ground arith

pub stored-Inv :
    {s : System} {xs : List QueueData} (d : QueueData)
    → Inv s xs
    → mutex_free s.logger ≡ true
    → Represents (put d s.queue) (xs ++ (d ∷ []))
    → s.queue.shutdown ≡ false
    → started s.phase ≡ true
    → Inv (after_push d (stored, put d s.queue) s) (xs ++ (d ∷ []))
stored-Inv {s} {xs} d v free r o st = record {
  in_phase =
      InPhase-change s.phase s.queue (put d s.queue) xs (xs ++ (d ∷ [])) st v.in_phase refl r;
  awake = Awake-wake s.phase s.logger v.awake;
  local = Local-wake s.logger s.queue (put d s.queue) xs (xs ++ (d ∷ [])) free o v.local;
  order = rw (in_hand-wake s.logger, v.order, append_assoc, append_assoc);
  sound = v.sound;
}
