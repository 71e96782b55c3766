-- ===== src/ThreadLoad/Rounds.antt =====
-- The rounds of `thload_run1`.
use slogger.Base.{
  ltb-true, ltb-false, ◌≤◌, ℕ, ◌+◌, ◌*◌, ◌^◌, ◌<◌, ◌≡◌, refl, ap, ◌∙◌, true, false, none, List, [],
  ◌∷◌, arith, length, pos,
}
use slogger.Condwait.{Timespec, Condwait, Call, back, blocked, undefined, extend}
use slogger.Condwait.Deadline.{nanos, extend-nanos, extend-normal}
use slogger.Condwait.Lock.{condwait_wait-back, condwait_stop-back, condwait_int_lem}
use slogger.ThreadLoad.{wait_rounds, thload_run1}

-- The numbers from `n` on.
abbrev pub count_from : ℕ → List ℕ → List ℕ
count_from n [] = []
count_from n (_ ∷ rs) = n ∷ count_from (n + 1) rs

-- `condwait.stop` has come back, with the mutex free, the condition gone, and the deadline `n`
-- nanoseconds behind `t`.
abbrev pub Finished : Timespec → ℕ → Call → Type 0
Finished t n (back r th) =
    (th.holder ≡ none) × (th.alive ≡ false) × (nanos th.timeout ≡ nanos t + n)
Finished t n blocked = ⊥
Finished t n undefined = ⊥

Finished-shift :
    (t t' : Timespec) (m n : ℕ) (c : Call)
    → nanos t' + n ≡ nanos t + m
    → Finished t' n c
    → Finished t m c
Finished-shift t t' m n (back r th) e (free, gone, d) = (free, gone, d ∙ e)
Finished-shift t t' m n Call.blocked e w = w
Finished-shift t t' m n Call.undefined e w = w

wait_rounds-Finished :
    (me : ℕ) (rs : List ℕ) (n : ℕ) (th : Condwait)
    → th.holder ≡ none
    → th.alive ≡ true
    → th.timeout.nsec < 1000000000
    → th.timeout.sec + length rs * 2 < 2 ^ 62
    → n + length rs < 2 ^ 31
    → ((wait_rounds me rs n th).0 ≡ count_from n rs)
      × Finished th.timeout (length rs * 100000000) (wait_rounds me rs n th).1
unfolding wait_rounds
wait_rounds-Finished me [] n th free alive a d c =
    rw (condwait_stop-back me th free) (refl, (refl, refl, omega arith))
wait_rounds-Finished me (r ∷ rs) n th free alive a d c =
    let t = extend th.timeout (pos 0) (pos 100) in
    let th' = record th { timeout = t; holder = none } in
    let e = extend-nanos th.timeout 0 100 a (omega arith) (omega arith) (omega arith) in
    let (ms, fin) =
      wait_rounds-Finished me rs (n + 1) th' refl alive (extend-normal th.timeout (pos 0) (pos 100))
        (omega arith) (omega arith) in
    rw
      (
        ltb-true (n + 1) (2 ^ 31) (omega arith),
        condwait_wait-back me r (pos 0) (pos 100) th free alive,
      )
      (
        ap (λ l. n ∷ l) ms,
        Finished-shift th.timeout t (length (r ∷ rs) * 100000000) (length rs * 100000000) _
            (omega (arith, e)) fin,
      )

-- With a start time in the range of the clock, and fewer than 2 ^ 31 rounds, the loop of
-- `thload_run1` comes back: its messages are numbered from 0 on, one for each wait, the condition
-- variable is destroyed with the mutex free, and the deadline has moved by 100 milliseconds for
-- each round.
pub thload_run1-Finished :
    (me : ℕ) (answers : List ℕ) (now : Timespec)
    → now.nsec < 1000000000
    → now.sec + length answers * 2 < 2 ^ 62
    → length answers < 2 ^ 31
    → ((thload_run1 me answers now).0 ≡ count_from 0 answers)
      × Finished now (length answers * 100000000) (thload_run1 me answers now).1
unfolding thload_run1
thload_run1-Finished me answers now a d c = rw (condwait_int_lem now) (
    wait_rounds-Finished me answers 0 (record { holder = none; alive = true; timeout = now }) refl
      refl a d (omega arith))

-- A round in which `ncount` is the greatest `int` is undefined.
pub wait_rounds-overflow :
    (me r : ℕ) (rs : List ℕ) (n : ℕ) (th : Condwait)
    → 2 ^ 31 ≤ n + 1
    → wait_rounds me (r ∷ rs) n th ≡ ([], undefined)
unfolding wait_rounds
wait_rounds-overflow me r rs n th le = rw (ltb-false (n + 1) (2 ^ 31) le) refl
