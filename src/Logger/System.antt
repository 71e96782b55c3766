-- ===== src/Logger/System.antt =====
-- The threads of slogger.c: the logging thread, any number of producers in `pushMessage`, and the
-- thread that runs `slog_start` and `slog_stop`. A step is what one thread does between two points
-- where another can run. The mutex is held by the logging thread exactly at `deciding`, `sleepy`
-- and `leaving`; every other critical section is one step, possible while the mutex is free.
use slogger.Base
use slogger.Base.{ℕ, suc, ◌≡◌, Bool, true, false, List, [], ◌∷◌, ◌++◌, if◌then◌else◌}
use slogger.Logger.{
  QueueData, Queue, initial, Pushed, stored, rejected, invalid, enqueue_locked, must_wait, Taken,
  closed, message, garbage, dequeue_locked, set_capacity, allocate, close, release,
}

-- Where `logging_thread` stands.
pub data LoggerPc : Type 0 where
  opening : LoggerPc  -- before `fopen`
  failed : LoggerPc  -- has returned NULL, since the file could not be opened
  ready : LoggerPc  -- head of its loop, before the lock in `dequeue`
  deciding : LoggerPc  -- has the lock, before the test of the `while`
  sleepy : LoggerPc  -- has the lock, has seen the test hold, before `pthread_cond_wait`
  waiting : LoggerPc  -- in `pthread_cond_wait`, the mutex released
  leaving : LoggerPc  -- has the lock, behind the `while`
  writing : QueueData → LoggerPc  -- unlocked, before `fwrite`
  ended : LoggerPc  -- has closed the file
  crashed : LoggerPc  -- has read a slot without a message

-- Where the thread that starts and stops the logger stands.
pub data Phase : Type 0 where
  created : Phase  -- behind `pthread_create`
  sized : Phase  -- `capacity` set, `data` still NULL
  running : Phase  -- `slog_start` has returned
  flagged : Phase  -- `slog_stop` has set `shutdown`, without the mutex
  signalled : Phase  -- it has signalled and destroyed the condition, and waits in `pthread_join`
  joined : Phase  -- it has freed `data`

-- `accepted` is a ghost: the messages that `enqueue` stored, in order. `written` is the file.
pub record System : Type 0 where
  pub queue : Queue
  pub logger : LoggerPc
  pub phase : Phase
  pub accepted : List QueueData
  pub written : List QueueData
  pub overrun : Bool  -- some `enqueue` wrote through an invalid address

abbrev pub start : System
start = record {
  queue = initial;
  logger = opening;
  phase = created;
  accepted = [];
  written = [];
  overrun = false;
}

abbrev pub mutex_free : LoggerPc → Bool
mutex_free deciding = false
mutex_free sleepy = false
mutex_free leaving = false
mutex_free _ = true

-- `pthread_cond_signal` wakes the logging thread, the only one that waits.
abbrev pub wake : LoggerPc → LoggerPc
wake waiting = ready
wake pc = pc

-- What `pthread_join` waits for.
abbrev pub returned : LoggerPc → Bool
returned ended = true
returned failed = true
returned _ = false

abbrev pub after_push : QueueData → Pushed × Queue → System → System
after_push d (stored, q) s = record s {
  queue = q;
  logger = wake s.logger;
  accepted = s.accepted ++ (d ∷ []);
}
after_push d (rejected, q) s = record s { queue = q }
after_push d (invalid, q) s = record s { overrun = true }

abbrev pub after_take : Taken × Queue → System → System
after_take (closed, q) s = record s { queue = q; logger = ended }
after_take (message d, q) s = record s { queue = q; logger = writing d }
after_take (garbage, q) s = record s { logger = crashed }

abbrev pub decide : System → System
decide s = record s { logger = if must_wait s.queue then sleepy else leaving }

-- A step of the logging thread.
pub data LoggerStep (s : System) : System → Type 0 where
  opened : s.logger ≡ opening → LoggerStep s (record s { logger = ready })
  not_opened : s.logger ≡ opening → LoggerStep s (record s { logger = failed })
  lock : s.logger ≡ ready → LoggerStep s (record s { logger = deciding })
  test : s.logger ≡ deciding → LoggerStep s (decide s)
  sleep : s.logger ≡ sleepy → LoggerStep s (record s { logger = waiting })
  take : s.logger ≡ leaving → LoggerStep s (after_take (dequeue_locked s.queue) s)
  write :
      (d : QueueData)
      → s.logger ≡ writing d
      → LoggerStep s (record s { logger = ready; written = s.written ++ (d ∷ []) })

-- The bytes of the file: `fwrite` of each message in turn, with nothing in between.
abbrev pub file_text : List QueueData → List ℕ
file_text [] = []
file_text (d ∷ ds) = Base.take d.size d.str ++ file_text ds

-- A message is pushed only while the queue has an array, or no capacity: a push between the two
-- assignments of `slog_start` is left out here (`Faultless` in Logger/Safety.antt says what it comes to).
-- Spurious wake-ups are allowed.
abbrev pub may_push : Phase → Bool
may_push sized = false
may_push _ = true

pub data Step (s : System) : System → Type 0 where
  logs : {t : System} → LoggerStep s t → Step s t
  spurious : s.logger ≡ waiting → Step s (record s { logger = ready })
  push :
      (d : QueueData)
      → mutex_free s.logger ≡ true
      → may_push s.phase ≡ true
      → Step s (after_push d (enqueue_locked d s.queue) s)
  size_queue : s.phase ≡ created → Step s (record s { queue = set_capacity s.queue; phase = sized })
  make_array : s.phase ≡ sized → Step s (record s { queue = allocate s.queue; phase = running })
  flag : s.phase ≡ running → Step s (record s { queue = close s.queue; phase = flagged })
  signal :
      s.phase ≡ flagged
      → mutex_free s.logger ≡ true
      → Step s (record s { logger = wake s.logger; phase = signalled })
  join :
      s.phase ≡ signalled
      → returned s.logger ≡ true
      → Step s (record s { queue = release s.queue; phase = joined })

-- `slog_stop` has destroyed the condition variable.
abbrev pub destroyed : Phase → Bool
destroyed signalled = true
destroyed joined = true
destroyed _ = false

abbrev pub is_stored : Pushed → Bool
is_stored stored = true
is_stored _ = false

-- The step waits on the condition variable, signals or destroys it.
abbrev pub uses_cond : {s t : System} → Step s t → Bool
uses_cond (logs (sleep e)) = true
uses_cond (spurious e) = true
uses_cond {s} (push d f m) = is_stored (enqueue_locked d s.queue).0
uses_cond (signal e f) = true
uses_cond _ = false

pub data Reach : System → Type 0 where
  here : Reach start
  next : {s t : System} → Reach s → Step s t → Reach t

-- Steps of the logging thread alone, counted.
pub data Drains (t : System) : ℕ → System → Type 0 where
  done : Drains t 0 t
  step : {n : ℕ} {s u : System} → LoggerStep s u → Drains t n u → Drains t (suc n) s
