-- ===== src/Condwait/Deadline.antt =====
-- The deadline arithmetic of `condwait_wait`.
use slogger.Base.{ℤ, pos, ℕ, ◌+◌, ◌*◌, ◌^◌, ◌<◌, ◌≡◌, arith}
use slogger.Condwait.{Timespec, extend}

-- Nanoseconds since the epoch.
abbrev pub nanos : Timespec → ℕ
nanos t = t.sec * 1000000000 + t.nsec

-- For all arguments of `condwait_wait`, negative ones too, the new `tv_nsec` is below 10 ^ 9.
pub extend-normal : (t : Timespec) (seconds ms : ℤ) → (extend t seconds ms).nsec < 1000000000
unfolding extend
extend-normal t seconds ms = omega arith

-- The deadline moves by exactly the timeout, if neither part of it is negative.
pub extend-nanos :
    (t : Timespec) (seconds ms : ℕ)
    → t.nsec < 1000000000
    → seconds < 2 ^ 31
    → ms < 2 ^ 31
    → t.sec < 2 ^ 62
    → nanos (extend t (pos seconds) (pos ms)) ≡ nanos t + (seconds * 1000000000 + ms * 1000000)
unfolding extend
extend-nanos t seconds ms a b c d = omega arith
