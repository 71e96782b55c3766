-- ===== src/Condwait.antt =====
-- condwait.c: a condition variable, its mutex and a deadline.
pub mod Deadline
pub mod Lock
mod Tests
use slogger.Base.{
  ℤ, pos, negsuc, ℕ, suc, ◌+◌, ◌-◌, ◌*◌, ◌/◌, ◌%◌, ◌^◌, Bool, true, false, Option, none, some, List,
  [], ◌∷◌, ◌==◌, if◌then◌else◌,
}

-- `struct timespec`: `sec` is the 64-bit word of `tv_sec`.
pub record Timespec : Type 0 where
  pub sec : ℕ
  pub nsec : ℕ

-- `Condwait`. The mutex is the thread that holds it; `alive` is whether the condition variable exists.
pub record Condwait : Type 0 where
  pub holder : Option ℕ
  pub alive : Bool
  pub timeout : Timespec

-- What a call comes to. `undefined` is a call that POSIX leaves undefined.
pub data Call : Type 0 where
  back : ℕ → Condwait → Call
  blocked undefined : Call

-- A 64-bit word for an integer: `factor` times the argument.
abbrev pub word : ℤ → ℕ → ℕ
word (pos n) factor = (n * factor) % 2 ^ 64
word (negsuc n) factor = (2 ^ 64 - (n + 1) * factor) % 2 ^ 64

-- The new deadline: an `u_int64_t` sum, split into seconds and the rest.
pub extend : Timespec → (seconds ms : ℤ) → Timespec
extend t seconds ms =
    let future_ns = (t.nsec + word ms 1000000) % 2 ^ 64 in
    record {
      sec = (t.sec + (word seconds 1 + future_ns / 1000000000)) % 2 ^ 64;
      nsec = future_ns % 1000000000;
    }

-- `condwait_int`: the deadline is the time of the call.
pub condwait_int : Timespec → Condwait
condwait_int now = record { holder = none; alive = true; timeout = now }

holds : ℕ → Option ℕ → Bool
holds me none = false
holds me (some p) = p == me

-- `pthread_mutex_lock`, with what follows it: a mutex that is held blocks.
abbrev pub lock : ℕ → Condwait → (Condwait → Call) → Call
lock me th next = elim th.holder [ none ↦ next (record th { holder = some me }) | some _ ↦ blocked ]

-- `pthread_mutex_unlock`: only the holder of a default mutex may unlock it.
abbrev pub unlock : ℕ → Condwait → (Condwait → Call) → Call
unfolding holds
unlock me th next = if holds me th.holder then next (record th { holder = none }) else undefined

-- `pthread_cond_timedwait` returns `result` with the mutex held as before.
abbrev timed_wait : ℕ → Condwait → (Condwait → Call) → Call
timed_wait me th next = if th.alive then next th else undefined

-- `condwait_wait`.
pub condwait_wait : (me result : ℕ) → (seconds ms : ℤ) → Condwait → Call
unfolding extend
condwait_wait me result seconds ms th =
    lock me (record th { timeout = extend th.timeout seconds ms })
      (λ th. timed_wait me th (λ th. unlock me th (λ th. back result th)))

-- `condwait_signal`. The signal changes no field.
pub condwait_signal : (me : ℕ) → Condwait → Call
condwait_signal me th = unlock me th (λ th. unlock me th (λ th. back 0 th))

-- `condwait_stop`.
pub condwait_stop : (me : ℕ) → Condwait → Call
condwait_stop me th = lock me th (λ th. unlock me (record th { alive = false }) (λ th. back 0 th))

abbrev pub and_then : Call → (Condwait → Call) → Call
and_then (back _ th) next = next th
and_then blocked next = blocked
and_then undefined next = undefined

-- A thread that waits again and again with the same arguments, once for each result.
pub wait_all : (me : ℕ) → List ℕ → (seconds ms : ℤ) → Condwait → Call
wait_all me [] seconds ms th = back 0 th
wait_all me (r ∷ rs) seconds ms th =
    and_then (condwait_wait me r seconds ms th) (wait_all me rs seconds ms)
