-- ===== src/Logger/Refine.antt =====
-- The critical sections of the queue against the channel of Logger/Channel.antt.
use slogger.Logger.{
  invalid, QueueData, Queue, max_capacity, initial, stored, rejected, rear, put, enqueue_locked,
  must_wait, message, dequeue_locked, set_capacity, allocate, slot, take_at,
}
use slogger.Base.{
  ◌+◌, ◌<◌, ◌≡◌, refl, true, false, ◌||◌, Option, none, some, List, [], ◌∷◌, ◌++◌, arith, ◌==◌,
  length, length-append, length-set, length-replicate, Bool-cases, inl, inr, ap, ltb, ◌%◌,
}
use mathlib.Core.Path.{ap₂}
use native.Mathlib.Nat.{mod-lt}
use slogger.Logger.Represents.{Represents, Holds-set}
use slogger.Logger.Channel.{Channel, push, blocks, first, rest}

abbrev pub channel : Queue → List QueueData → Channel
channel q xs = record { items = xs; shut = q.shutdown }

pub put-Represents :
    {q : Queue} {xs : List QueueData} (d : QueueData)
    → Represents q xs
    → length xs < q.capacity
    → Represents (put d q) (xs ++ (d ∷ []))
put-Represents {q} {xs} d r room = record {
  capacity = r.capacity;
  array = omega (arith, length-set q.slots (rear q) (some d));
  front = r.front;
  size = omega (arith, length-append xs (d ∷ []));
  fits = omega (arith, length-append xs (d ∷ []));
  window =
      Holds-set q.slots q.capacity q.front (rear q) xs d r.array r.front room
        (ap (λ n. (q.front + n) % q.capacity) r.size) r.window;
}

full-eq :
    {q : Queue} {xs : List QueueData}
    → Represents q xs
    → (q.size == q.capacity) ≡ (length xs == max_capacity)
full-eq r = ap₂ (λ a b. a == b) r.size r.capacity

rear_in_range :
    {q : Queue} {xs : List QueueData} → Represents q xs → ltb (rear q) (length q.slots) ≡ true
rear_in_range {q} r =
    rw r.array (ground (arith, mod-lt (q.front + q.size) {m = q.capacity} (omega arith)))

pub enqueue-refused :
    {q : Queue} (d : QueueData)
    → (q.size == q.capacity || q.shutdown) ≡ true
    → enqueue_locked d q ≡ (rejected, q)
unfolding enqueue_locked
enqueue-refused d h = rw h

pub enqueue-stored :
    {q : Queue} {xs : List QueueData} (d : QueueData)
    → Represents q xs
    → (q.size == q.capacity || q.shutdown) ≡ false
    → (enqueue_locked d q ≡ (stored, put d q)) × Represents (put d q) (xs ++ (d ∷ []))
unfolding enqueue_locked
enqueue-stored {q} {xs} d r h = (rw (h, rear_in_range r), put-Represents d r (ground arith))

-- On a ring that represents a list of messages `enqueue` answers as the bounded channel does and
-- leaves a ring with the channel's messages: with room and before the shutdown the message goes
-- behind the others, otherwise nothing changes.
pub enqueue_refines :
    {q : Queue} {xs : List QueueData} (d : QueueData)
    → Represents q xs
    → let (p, q') = enqueue_locked d q in
      let (p', c) = push d (channel q xs) in
      (p ≡ p') × Represents q' c.items × (q'.shutdown ≡ c.shut)
unfolding push
enqueue_refines {q} {xs} d r = elim (Bool-cases (q.size == q.capacity || q.shutdown)) [
  | inl full ↦ rw (enqueue-refused d full, ← full-eq r, full) (refl, r, refl)
  | inr room ↦
      rw ((enqueue-stored d r room).0, ← full-eq r, room) (refl, (enqueue-stored d r room).1, refl)
]

pub dequeue-cons :
    {q : Queue} {x : QueueData} {xs : List QueueData}
    → Represents q (x ∷ xs)
    → ((dequeue_locked q).0 ≡ message x)
      × Represents (dequeue_locked q).1 xs
      × ((dequeue_locked q).1.shutdown ≡ q.shutdown)
unfolding dequeue_locked
dequeue-cons {q} {x} {xs} r =
    let busy : (q.size == 0) ≡ false = ground arith in
    rw (busy, slot, r.window.0, take_at)
      (
        refl,
        record {
          capacity = r.capacity;
          array = r.array;
          front = omega (arith, r.capacity);
          size = omega arith;
          fits = omega arith;
          window = r.window.1;
        },
        refl,
      )

-- On a ring that represents a list of messages `dequeue` waits exactly if the channel is open and
-- empty; when it does not wait it returns the oldest message and leaves the ring with the others,
-- or NULL, with nothing changed, if there is none.
pub dequeue_refines :
    {q : Queue} (xs : List QueueData)
    → Represents q xs
    → (must_wait q ≡ blocks xs q.shutdown)
      × (must_wait q ≡ false
          → ((dequeue_locked q).0 ≡ first xs)
            × Represents (dequeue_locked q).1 (rest xs)
            × ((dequeue_locked q).1.shutdown ≡ q.shutdown))
unfolding dequeue_locked must_wait
dequeue_refines {q} [] r = (ground arith, λ go. ground arith)
dequeue_refines {q} (x ∷ xs) r = (ground arith, λ _. dequeue-cons r)

-- The static initialiser followed by `slog_start` is an open channel with no message.
pub start-Represents : Represents (allocate (set_capacity initial)) []
unfolding allocate set_capacity
start-Represents = record {
  capacity = refl;
  array = length-replicate {A = Option QueueData} max_capacity none;
  front = omega arith;
  size = refl;
  fits = omega arith;
  window = tt;
}

-- A queue that has just been started takes a message.
pub start-room :
    let q = allocate (set_capacity initial) in (q.size == q.capacity || q.shutdown) ≡ false
unfolding allocate set_capacity
start-room = refl

-- Between the two assignments of `slog_start` an `enqueue` writes through `NULL`.
pub unallocated-invalid :
    (d : QueueData) → enqueue_locked d (set_capacity initial) ≡ (invalid, set_capacity initial)
unfolding enqueue_locked set_capacity
unallocated-invalid d = refl
