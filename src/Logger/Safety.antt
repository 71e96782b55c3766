-- ===== src/Logger/Safety.antt =====
-- What the threads of slogger.c guarantee in every order of their steps.
use mathlib.Core.Bool.{false≢true}
use slogger.Logger.Refine.{unallocated-invalid, enqueue-stored, enqueue-refused}
use slogger.Logger.Invariant.{Inv, Awake, InPhase, in_hand}
use slogger.Logger.System.{
  LoggerPc, Phase, created, running, flagged, joined, opened, not_opened, lock, test, sleep, take,
  write, logs, spurious, push, size_queue, make_array, flag, signal, join, sized, Step, destroyed,
  uses_cond, opening, failed, waiting, sleepy, ended, crashed, signalled, System, Reach,
}
use slogger.Base.{
  Bool-cases, inl, inr, ◌||◌, ◌==◌, ap, ◌∙◌, ◌+◌, ◌*◌, ◌^◌, ◌<◌, ◌≡◌, refl, ◌≢◌, true, false, List,
  ◌++◌, arith, length, append-nil,
}
use slogger.Logger.{
  invalid, stored, QueueData, Queue, rejected, rear, enqueue_locked, set_capacity, allocate,
}
use mathlib.Core.Path.{subst, sym}
use slogger.Logger.Represents.{Represents}
use slogger.Logger.Preserve.{Reach-Inv}
use slogger.Logger.Drain.{Drained, drained}

-- In every reachable state of the threads the accepted messages are, in order, those in the file,
-- the one that the logging thread holds, and those in the queue, which the ring stores as the
-- phase of `slog_start` and `slog_stop` allows.
pub Reach-fifo :
    {s : System}
    → Reach s
    → (xs : List QueueData) × (s.accepted ≡ s.written ++ (in_hand s.logger ++ xs))
      × InPhase s.phase s.queue xs
Reach-fifo r = let (xs, v) = Reach-Inv r in (xs, v.order, v.in_phase)

enqueue-valid :
    {q : Queue} {xs : List QueueData} (d : QueueData)
    → Represents q xs
    → (enqueue_locked d q).0 ≢ invalid
enqueue-valid {q} d r e = elim (Bool-cases (q.size == q.capacity || q.shutdown)) [
  | inl full ↦ rejected-valid (sym (ap (λ x. x.0) (enqueue-refused d full)) ∙ e)
  | inr room ↦ stored-valid (sym (ap (λ x. x.0) (enqueue-stored d r room).0) ∙ e)
]
  where
    rejected-valid : rejected ≢ invalid
    rejected-valid e = ground arith

    stored-valid : stored ≢ invalid
    stored-valid e = ground arith

refused-valid :
    (q : Queue) (d : QueueData)
    → (q.size == q.capacity || q.shutdown) ≡ true
    → (enqueue_locked d q).0 ≢ invalid
refused-valid q d full e =
    let same : (enqueue_locked d q).0 ≡ rejected = ap (λ x. x.0) (enqueue-refused d full) in
    ground arith

unallocated_in :
    (p : Phase) (q : Queue) (xs : List QueueData) (d : QueueData)
    → InPhase p q xs
    → p ≡ sized
    → (enqueue_locked d q).0 ≡ invalid
unallocated_in p q xs d v e =
    let now : InPhase sized q xs = subst (λ p. InPhase p q xs) e v in
    rw (now.0, unallocated-invalid d) refl

allocated_in :
    (p : Phase) (q : Queue) (xs : List QueueData) (d : QueueData)
    → InPhase p q xs
    → p ≢ sized
    → (enqueue_locked d q).0 ≢ invalid
allocated_in created q xs d (e, n) ne = refused-valid q d (rw e refl)
allocated_in sized q xs d v ne = absurd (ne refl)
allocated_in running q xs d (o, r) ne = enqueue-valid d r
allocated_in flagged q xs d (o, r) ne = enqueue-valid d r
allocated_in signalled q xs d (o, r) ne = enqueue-valid d r
allocated_in joined q xs d (shut, n) ne = refused-valid q d (ground arith)

shut_in :
    (p : Phase) (q : Queue) (xs : List QueueData)
    → InPhase p q xs
    → destroyed p ≡ true
    → q.shutdown ≡ true
shut_in created q xs v e = absurd (false≢true e)
shut_in sized q xs v e = absurd (false≢true e)
shut_in running q xs v e = absurd (false≢true e)
shut_in flagged q xs v e = absurd (false≢true e)
shut_in signalled q xs v e = v.0
shut_in joined q xs v e = v.0

off : (p : Phase) (l : LoggerPc) → Awake p l → destroyed p ≡ true → (l ≢ sleepy) × (l ≢ waiting)
off p l a e = ground arith

unused :
    {s t : System} {xs : List QueueData} (st : Step s t)
    → Inv s xs
    → destroyed s.phase ≡ true
    → uses_cond st ≡ false
unused {s} (logs (sleep e)) v d = absurd ((off s.phase s.logger v.awake d).0 e)
unused (logs (opened e)) v d = refl
unused (logs (not_opened e)) v d = refl
unused (logs (lock e)) v d = refl
unused (logs (test e)) v d = refl
unused (logs (take e)) v d = refl
unused (logs (write m e)) v d = refl
unused {s} (spurious e) v d = absurd ((off s.phase s.logger v.awake d).1 e)
unused {s} {t} {xs} (push m f p) v d =
    rw (enqueue-refused {q = s.queue} m (ground (arith, shut_in s.phase s.queue xs v.in_phase d)))
      refl
unused (size_queue e) v d = refl
unused (make_array e) v d = refl
unused (flag e) v d = refl
unused {s} (signal e f) v d = absurd (false≢true (sym (ap destroyed e) ∙ d))
unused (join e o) v d = refl

-- What a state cannot do wrong, and the one push that it can.
pub record Faultless (s : System) : Type 0 where
  pub no_overrun : s.overrun ≡ false
  pub no_garbage : s.logger ≢ crashed
  pub unallocated : (d : QueueData) → s.phase ≡ sized → (enqueue_locked d s.queue).0 ≡ invalid
  pub allocated : (d : QueueData) → s.phase ≢ sized → (enqueue_locked d s.queue).0 ≢ invalid
  pub cond : {t : System} (st : Step s t) → destroyed s.phase ≡ true → uses_cond st ≡ false

-- If no message is pushed between the two assignments of `slog_start`, no reachable state has
-- written through an invalid address of the array, or read a slot that holds no message, and after
-- `slog_stop` has destroyed the condition variable no step uses it. A push between the two
-- assignments would write through an invalid address, and in every other reachable state no push
-- does.
pub Reach-Faultless : {s : System} → Reach s → Faultless s
Reach-Faultless {s} r =
    let (xs, v) = Reach-Inv r in
    record {
      no_overrun = v.sound;
      no_garbage = ground arith;
      unallocated = λ d e. unallocated_in s.phase s.queue xs d v.in_phase e;
      allocated = λ d ne. allocated_in s.phase s.queue xs d v.in_phase ne;
      cond = λ st d. unused st v d;
    }

-- When in a reachable state the logging thread has ended, the file holds every accepted message,
-- in order.
pub Reach-nothing_lost : {s : System} → Reach s → s.logger ≡ ended → s.written ≡ s.accepted
Reach-nothing_lost {s} r e = let (xs, v) = Reach-Inv r in ground (arith, append-nil s.written)

-- In every reachable state behind the signal of `slog_stop` the logging thread is not asleep, nor
-- about to be: the flag is set without the mutex, but the signal is not lost.
pub Reach-awake :
    {s : System} → Reach s → s.phase ≡ signalled → (s.logger ≢ waiting) × (s.logger ≢ sleepy)
Reach-awake r e = let (xs, v) = Reach-Inv r in ground arith

-- `pthread_join` in `slog_stop` returns: from every reachable state in which the stop is signalled
-- and the logging thread has opened its file, that thread ends by at most `4 * k + 4` steps of its
-- own, `k` the number of messages in the queue, and then the file holds every accepted message.
pub Reach-drains :
    {s : System}
    → Reach s
    → s.phase ≡ signalled
    → s.logger ≢ opening
    → s.logger ≢ failed
    → Drained s (4 * s.queue.size + 4)
Reach-drains {s} r e op fa =
    let (xs, v) = Reach-Inv r in
    let same : s.queue.size ≡ length xs = ground arith in
    subst (λ n. Drained s (4 * n + 4)) (sym same) (drained s.logger refl v e op fa)

-- In a started queue that represents messages the sum `front + size` is below 2 ^ 31 and the index
-- `rear` is in the array.
pub Represents-rear :
    {q : Queue} {xs : List QueueData}
    → Represents q xs
    → (q.front + q.size < 2 ^ 31) × (rear q < length q.slots)
Represents-rear r = grind arith

-- A queue whose shutdown flag `slog_stop` has set refuses every message also after `slog_start`
-- has sized and allocated it again.
pub restart-refuses :
    (q : Queue) (d : QueueData)
    → q.shutdown ≡ true
    → enqueue_locked d (allocate (set_capacity q)) ≡ (rejected, allocate (set_capacity q))
unfolding allocate set_capacity
restart-refuses q d h = enqueue-refused d (ground arith)
