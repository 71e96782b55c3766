-- ===== src/Logger/Busy.antt =====
-- How many steps the logging thread can take by itself.
use slogger.Base.{
  ℕ, suc, ◌+◌, ◌*◌, ◌≤◌, ◌≡◌, true, false, Option, none, some, List, arith, inl, inr, Bool-cases,
  ◌==◌,
}
use slogger.Logger.{QueueData, must_wait, slot, take_at, dequeue_locked}
use slogger.Logger.Invariant.{Inv}
use slogger.Logger.System.{
  LoggerPc, opening, ready, deciding, sleepy, leaving, writing, System, wake, LoggerStep, opened,
  not_opened, lock, test, sleep, take, write, after_take, decide,
}

-- The steps up to `pthread_cond_wait` or the end, while nothing is in the queue.
abbrev pub steps_left : LoggerPc → ℕ
steps_left opening = 4
steps_left ready = 3
steps_left deciding = 2
steps_left sleepy = 1
steps_left leaving = 1
steps_left (writing d) = 4
steps_left _ = 0

-- The same with four steps for each message in the queue.
abbrev pub busy : System → ℕ
busy s = steps_left s.logger + 4 * s.queue.size

pub wake-left : (pc : LoggerPc) → steps_left (wake pc) ≤ steps_left pc + 3
wake-left pc = ground arith

decide-busy : (s : System) → s.logger ≡ deciding → suc (busy (decide s)) ≤ busy s
decide-busy s e = ground arith

take_at-busy :
    (o : Option QueueData) (s : System)
    → s.logger ≡ leaving
    → (s.queue.size == 0) ≡ false
    → suc (busy (after_take (take_at o s.queue) s)) ≤ busy s
unfolding take_at
take_at-busy none s e n = ground arith
take_at-busy (some d) s e n = ground arith

take-busy :
    (s : System)
    → s.logger ≡ leaving
    → must_wait s.queue ≡ false
    → suc (busy (after_take (dequeue_locked s.queue) s)) ≤ busy s
unfolding must_wait dequeue_locked
take-busy s e go = elim (Bool-cases (s.queue.size == 0)) [
  | inl z ↦ let shut : s.queue.shutdown ≡ true = ground arith in rw (z, shut) (ground arith)
  | inr n ↦ rw n (take_at-busy (slot s.queue.slots s.queue.front) s e n)
]

pub LoggerStep-busy :
    {s t : System} {xs : List QueueData} → LoggerStep s t → Inv s xs → suc (busy t) ≤ busy s
LoggerStep-busy (opened e) v = ground arith
LoggerStep-busy (not_opened e) v = ground arith
LoggerStep-busy (lock e) v = ground arith
LoggerStep-busy {s} (test e) v = decide-busy s e
LoggerStep-busy (sleep e) v = ground arith
LoggerStep-busy {s} (take e) v = take-busy s e (ground arith)
LoggerStep-busy (write d e) v = ground arith
