-- ===== src/Logger.antt =====
-- The message queue of slogger.c: a ring of pointers under one mutex, and its critical sections.
pub mod Represents
pub mod Channel
pub mod Refine
pub mod Send
pub mod Sink
pub mod Trace
pub mod View
pub mod System
pub mod Invariant
pub mod Preserve
pub mod Drain
pub mod Safety
pub mod Busy
pub mod Restart
mod Tests
use slogger.Base.{
  ℕ, ◌+◌, ◌-◌, ◌%◌, Bool, true, false, not, ◌&&◌, ◌||◌, Option, none, some, List, [], ◌==◌,
  if◌then◌else◌, length, get_elem?, set, replicate, ltb,
}

-- `QueueData`: the bytes behind `str`, of which `size` are written.
pub record QueueData : Type 0 where
  pub str : List ℕ
  pub size : ℕ

-- `Queue`, less its mutex and condition variable. A slot that was never written is `none`, and
-- `data == NULL` is an array of length 0. Signed overflow of `front + size` would be a fault.
pub record Queue : Type 0 where
  pub front : ℕ
  pub size : ℕ
  pub shutdown : Bool
  pub slots : List (Option QueueData)
  pub capacity : ℕ

abbrev pub max_capacity : ℕ
max_capacity = 2048

-- The static initialiser of `queue`.
abbrev pub initial : Queue
initial = record { front = 0; size = 0; shutdown = false; slots = []; capacity = 0 }

-- What the critical section of `enqueue` does: `stored`, the early return, or a write through an
-- invalid address.
pub data Pushed : Type 0 where
  stored rejected invalid : Pushed

abbrev pub rear : Queue → ℕ
rear q = (q.front + q.size) % q.capacity

abbrev pub put : QueueData → Queue → Queue
put d q = record q { slots = set q.slots (rear q) (some d); size = q.size + 1 }

-- From the lock to the unlock.
unfoldable pub enqueue_locked : QueueData → Queue → Pushed × Queue
enqueue_locked d q =
    if q.size == q.capacity || q.shutdown
    then (rejected, q)
    else if ltb (rear q) (length q.slots)
    then (stored, put d q)
    else (invalid, q)

-- `enqueue` with no other thread in between: the flag is the message on stderr, which is printed
-- from a second read of the queue, after the unlock.
unfoldable pub enqueue : QueueData → Queue → Pushed × Bool × Queue
unfolding enqueue_locked
enqueue d q = warn (enqueue_locked d q)
  where
    warn : Pushed × Queue → Pushed × Bool × Queue
    warn (rejected, q') = (rejected, q'.size == q'.capacity, q')
    warn (p, q') = (p, false, q')

-- The loop test of `dequeue`.
unfoldable pub must_wait : Queue → Bool
must_wait q = q.size == 0 && not q.shutdown

-- What `dequeue` returns once its loop is left: NULL, a message, or a read of a slot that holds none.
pub data Taken : Type 0 where
  closed : Taken
  message : QueueData → Taken
  garbage : Taken

abbrev slot : List (Option QueueData) → ℕ → Option QueueData
slot xs i = elim (get_elem? xs i) [ none ↦ none | some d ↦ d ]

unfoldable pub take_at : Option QueueData → Queue → Taken × Queue
take_at none q = (garbage, q)
take_at (some d) q = (message d, record q { front = (q.front + 1) % q.capacity; size = q.size - 1 })

-- `dequeue` behind its loop, to the unlock.
unfoldable pub dequeue_locked : Queue → Taken × Queue
unfolding take_at
dequeue_locked q =
    if q.size == 0 && q.shutdown then (closed, q) else take_at (slot q.slots q.front) q

-- `slog_start` behind `pthread_create`: first the capacity, then the array (its `malloc` succeeds).
unfoldable pub set_capacity : Queue → Queue
set_capacity q = record q { capacity = max_capacity }

unfoldable pub allocate : Queue → Queue
allocate q = record q { slots = replicate q.capacity none }

-- `queue.shutdown = 1` and `free(queue.data)` of `slog_stop`.
unfoldable pub close : Queue → Queue
close q = record q { shutdown = true }

unfoldable pub release : Queue → Queue
release q = record q { slots = [] }

-- What `pushMessage` comes to: its two messages on stderr, or an `enqueue`.
pub data Sent : Type 0 where
  out_of_memory : Sent
  sent : Pushed → Bool → Sent

-- `pushMessage`: the flag says whether the `malloc` of the record succeeds, and a NULL string is
-- `none`.
unfoldable pub push_message : Bool → Option (List ℕ) → ℕ → Queue → Sent × Queue
push_message false str size q = (out_of_memory, q)
push_message true none size q = (out_of_memory, q)
push_message true (some bytes) size q =
    let (p, warned, q') = enqueue (record { str = bytes; size = size }) q in (sent p warned, q')
