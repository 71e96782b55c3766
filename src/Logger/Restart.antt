-- ===== src/Logger/Restart.antt =====
-- A second `slog_start` after a `slog_stop`: what the static variable `queue` keeps.
use mathlib.Core.Bool.{false≢true}
use slogger.Base.{sym, ◌∙◌, ◌≡◌, refl, ◌≢◌, true, false, [], arith}
use slogger.Logger.System.{
  uses_cond, is_stored, flagged, mutex_free, LoggerPc, opening, sleepy, waiting, writing, ended,
  crashed, created, joined, System, LoggerStep, opened, not_opened, lock, test, sleep, take, write,
  Step, logs, spurious, push, size_queue, make_array, flag, signal, join, Reach,
}
use slogger.Logger.{
  QueueData, Queue, rejected, closed, must_wait, dequeue_locked, enqueue_locked, set_capacity,
  allocate, close, release,
}
use slogger.Logger.Refine.{enqueue-refused}
use slogger.Logger.Preserve.{Reach-Inv}

-- `slog_start` again, from the queue that the first run has left.
abbrev pub restarted : System → System
restarted s = record {
  queue = s.queue;
  logger = opening;
  phase = created;
  accepted = [];
  written = [];
  overrun = false;
}

-- The states behind a given one, by steps that do not use the condition variable, which the first
-- `slog_stop` has destroyed.
pub data Follows (s : System) : System → Type 0 where
  here : Follows s s
  next : {t u : System} → Follows s t → (st : Step t u) → uses_cond st ≡ false → Follows s u

-- The thread neither writes nor waits.
abbrev Idle : LoggerPc → Type 0
Idle (writing d) = ⊥
Idle crashed = ⊥
Idle sleepy = ⊥
Idle waiting = ⊥
Idle _ = Unit {0}

record Silent (s : System) : Type 0 where
  shut : s.queue.shutdown ≡ true
  none_left : s.queue.size ≡ 0
  idle : Idle s.logger
  accepted : s.accepted ≡ []
  written : s.written ≡ []
  sound : s.overrun ≡ false

refuses : (q : Queue) (d : QueueData) → q.shutdown ≡ true → enqueue_locked d q ≡ (rejected, q)
refuses q d shut = enqueue-refused d (ground arith)

returns_null : (q : Queue) → q.shutdown ≡ true → q.size ≡ 0 → dequeue_locked q ≡ (closed, q)
unfolding dequeue_locked
returns_null q shut none_left = rw (shut, none_left) refl

logs-Silent : {s t : System} → LoggerStep s t → Silent s → Silent t
unfolding must_wait
logs-Silent (opened e) v = ground arith
logs-Silent (not_opened e) v = ground arith
logs-Silent (lock e) v = ground arith
logs-Silent {s} (test e) v = ground arith
logs-Silent (sleep e) v = ground arith
logs-Silent {s} (take e) v = rw (returns_null s.queue v.shut v.none_left) (ground arith)
logs-Silent (write d e) v = ground arith

Step-Silent : {s t : System} → Step s t → Silent s → Silent t
unfolding set_capacity allocate close release
Step-Silent (logs st) v = logs-Silent st v
Step-Silent (spurious e) v = ground arith
Step-Silent {s} (push d f m) v = rw (refuses s.queue d v.shut) v
Step-Silent (size_queue e) v = ground arith
Step-Silent (make_array e) v = ground arith
Step-Silent (flag e) v = ground arith
Step-Silent (signal e f) v = ground arith
Step-Silent (join e o) v = ground arith

Follows-Silent : {s t : System} → Follows s t → Silent s → Silent t
Follows-Silent here v = v
Follows-Silent (next r st f) v = Step-Silent st (Follows-Silent r v)

-- Only `slog_stop` uses the condition variable.
uses-flagged : {s t : System} (st : Step s t) → Silent s → uses_cond st ≡ true → s.phase ≡ flagged
uses-flagged {s} (logs (sleep e)) v u = absurd (ground arith)
uses-flagged (logs (opened e)) v u = absurd (false≢true u)
uses-flagged (logs (not_opened e)) v u = absurd (false≢true u)
uses-flagged (logs (lock e)) v u = absurd (false≢true u)
uses-flagged (logs (test e)) v u = absurd (false≢true u)
uses-flagged (logs (take e)) v u = absurd (false≢true u)
uses-flagged (logs (write d e)) v u = absurd (false≢true u)
uses-flagged {s} (spurious e) v u = absurd (ground arith)
uses-flagged {s} (push d f m) v u =
    let same : is_stored (enqueue_locked d s.queue).0 ≡ false =
      rw (refuses s.queue d v.shut) refl in
    absurd (false≢true (sym same ∙ u))
uses-flagged (size_queue e) v u = absurd (false≢true u)
uses-flagged (make_array e) v u = absurd (false≢true u)
uses-flagged (flag e) v u = absurd (false≢true u)
uses-flagged (signal e f) v u = e
uses-flagged (join e o) v u = absurd (false≢true u)

-- A state in which nothing has happened, and only the signal of `slog_stop` is undefined.
pub record Silenced (t : System) : Type 0 where
  pub accepted : t.accepted ≡ []
  pub written : t.written ≡ []
  pub no_overrun : t.overrun ≡ false
  pub no_garbage : t.logger ≢ crashed
  pub only_stop : {u : System} (st : Step t u) → uses_cond st ≡ true → t.phase ≡ flagged
  pub stop :
      t.phase ≡ flagged
      → mutex_free t.logger ≡ true
      → (u : System) × (st : Step t u) × (uses_cond st ≡ true)

-- The logger does not start twice: when a first run has been joined and its logging thread has
-- ended, then after `slog_start` is called again, in every state that the threads can reach
-- without use of the condition variable, which the first `slog_stop` has destroyed, no message has
-- been accepted and none written, nothing is written through an invalid address, and no empty slot
-- is read; and the only step that would use it, so that the run is undefined, is the signal of a
-- second `slog_stop`, which is possible whenever that has set its flag and the mutex is free.
pub Follows-silent :
    {s t : System}
    → Reach s
    → s.phase ≡ joined
    → s.logger ≡ ended
    → Follows (restarted s) t
    → Silenced t
Follows-silent {s} r e o f =
    let (xs, w) = Reach-Inv r in
    let start : Silent (restarted s) = ground arith in
    let v = Follows-Silent f start in
    record {
      accepted = v.accepted;
      written = v.written;
      no_overrun = v.sound;
      no_garbage = ground arith;
      only_stop = λ st u. uses-flagged st v u;
      stop = λ p free. (_, signal p free, refl);
    }
