-- ===== src/Condwait/Lock.antt =====
-- The mutex of condwait.c.
use slogger.Base.{
  false, ℤ, pos, ℕ, ◌≡◌, refl, true, none, arith, inl, inr, Bool-cases, List, [], ◌∷◌, length, ◌+◌,
  ◌*◌, ◌^◌, ◌<◌, ==-refl, ◌∙◌,
}
use slogger.Condwait.{
  condwait_stop, condwait_int, Timespec, blocked, Call, back, wait_all, condwait_wait, extend,
  Condwait, undefined, condwait_signal, holds,
}
use slogger.Condwait.Deadline.{nanos, extend-nanos, extend-normal}

-- `condwait_signal` unlocks a mutex that its caller does not hold, whoever holds the mutex at the
-- call: it is undefined.
pub condwait_signal-undefined : (me : ℕ) (th : Condwait) → condwait_signal me th ≡ undefined
unfolding condwait_signal holds
condwait_signal-undefined me th = elim (Bool-cases (holds me th.holder)) [
  | inl mine ↦ rw mine refl
  | inr other ↦ rw other refl
]

-- `condwait_wait` while nobody holds the mutex.
pub condwait_wait-back :
    (me r : ℕ) (seconds ms : ℤ) (th : Condwait)
    → th.holder ≡ none
    → th.alive ≡ true
    → condwait_wait me r seconds ms th
      ≡ back r (record th { timeout = extend th.timeout seconds ms; holder = none })
unfolding condwait_wait holds
condwait_wait-back me r seconds ms th free alive = rw (free, alive, ==-refl me) refl

-- What is left when a run of waits has returned.
abbrev pub Waited : Condwait → ℕ → Call → Type 0
Waited start n (back r th) =
    (th.holder ≡ none) × (th.alive ≡ true) × (nanos th.timeout ≡ nanos start.timeout + n)
Waited start n blocked = ⊥
Waited start n undefined = ⊥

Waited-shift :
    (start next : Condwait) (m n : ℕ) (c : Call)
    → nanos next.timeout + n ≡ nanos start.timeout + m
    → Waited next n c
    → Waited start m c
Waited-shift start next m n (back r th) e (free, alive, d) = (free, alive, d ∙ e)
Waited-shift start next m n blocked e w = w
Waited-shift start next m n undefined e w = w

-- A thread that waits again and again with the same arguments, on a mutex that nobody else holds,
-- always comes back with the mutex free, and the deadline has moved by exactly the sum of the
-- timeouts, in nanoseconds, if the arguments are not negative and the seconds stay below 2 ^ 62.
pub wait_all-Waited :
    (me : ℕ) (rs : List ℕ) (seconds ms : ℕ) (th : Condwait)
    → th.holder ≡ none
    → th.alive ≡ true
    → th.timeout.nsec < 1000000000
    → seconds < 2 ^ 31
    → ms < 2 ^ 31
    → th.timeout.sec + length rs * (2 ^ 32) < 2 ^ 62
    → Waited th
        (length rs * (seconds * 1000000000 + ms * 1000000))
        (wait_all me rs (pos seconds) (pos ms) th)
unfolding wait_all
wait_all-Waited me [] seconds ms th free alive a b c d = (free, alive, omega arith)
wait_all-Waited me (r ∷ rs) seconds ms th free alive a b c d =
    let next = record th { timeout = extend th.timeout (pos seconds) (pos ms); holder = none } in
    let e = extend-nanos th.timeout seconds ms a b c (omega arith) in
    rw (condwait_wait-back me r (pos seconds) (pos ms) th free alive) (
      Waited-shift th next (length (r ∷ rs) * (seconds * 1000000000 + ms * 1000000))
        (length rs * (seconds * 1000000000 + ms * 1000000)) _ (grind arith)
        (wait_all-Waited me rs seconds ms next refl alive
          (extend-normal th.timeout (pos seconds) (pos ms)) b c (omega arith)))

-- `condwait_stop` while nobody holds the mutex.
pub condwait_stop-back :
    (me : ℕ) (th : Condwait)
    → th.holder ≡ none
    → condwait_stop me th ≡ back 0 (record th { holder = none; alive = false })
unfolding condwait_stop holds
condwait_stop-back me th free = rw (free, ==-refl me) refl

-- What `condwait_int` sets up.
pub condwait_int_lem :
    (now : Timespec) → condwait_int now ≡ record { holder = none; alive = true; timeout = now }
unfolding condwait_int
condwait_int_lem now = refl
