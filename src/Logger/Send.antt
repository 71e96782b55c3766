-- ===== src/Logger/Send.antt =====
-- `pushMessage` on a started queue.
use slogger.Base.{ℕ, ◌≡◌, refl, true, false, some, List, [], ◌∷◌, ◌++◌, ◌||◌, ◌==◌}
use slogger.Logger.{QueueData, Queue, stored, rejected, put, enqueue, push_message, sent}
use slogger.Logger.Represents.{Represents}
use slogger.Logger.Refine.{enqueue-stored, enqueue-refused}

-- `pushMessage` while the queue has room and is open.
pub push_message-stored :
    {q : Queue} {xs : List QueueData} (str : List ℕ) (size : ℕ)
    → Represents q xs
    → (q.size == q.capacity || q.shutdown) ≡ false
    → let d : QueueData = record { str = str; size = size } in
      (push_message true (some str) size q ≡ (sent stored false, put d q))
      × Represents (put d q) (xs ++ (d ∷ []))
unfolding push_message enqueue
push_message-stored str size r room =
    let (e, r') = enqueue-stored (record { str = str; size = size }) r room in (rw e refl, r')

-- On a queue that is full or closed `pushMessage` changes nothing and prints its warning exactly
-- if the queue is full.
pub push_message-warns :
    {q : Queue} (str : List ℕ) (size : ℕ)
    → (q.size == q.capacity || q.shutdown) ≡ true
    → push_message true (some str) size q ≡ (sent rejected (q.size == q.capacity), q)
unfolding push_message enqueue
push_message-warns str size full =
    rw (enqueue-refused (record { str = str; size = size }) full) refl
