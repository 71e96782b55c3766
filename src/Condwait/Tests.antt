-- ===== src/Condwait/Tests.antt =====
-- The theorems on condwait.c at a concrete wait.
use slogger.Base.{pos, ◌+◌, ◌*◌, ◌≡◌, refl, some, [], ◌∷◌, arith}
use slogger.Condwait.{Timespec, condwait_int, condwait_signal, undefined, wait_all}
use slogger.Condwait.Lock.{Waited, wait_all-Waited, condwait_signal-undefined}

abbrev now : Timespec
now = record { sec = 1700000000; nsec = 900000000 }

wait_all-Waited_example :
    Waited
      (condwait_int now)
      (2 * (1 * 1000000000 + 250 * 1000000))
      (wait_all 7 (0 ∷ 110 ∷ []) (pos 1) (pos 250) (condwait_int now))
unfolding condwait_int
wait_all-Waited_example =
    wait_all-Waited 7 (0 ∷ 110 ∷ []) 1 250 (condwait_int now) refl refl (omega arith) (omega arith)
      (omega arith) (omega arith)

condwait_signal-undefined_example :
    condwait_signal 7 (record (condwait_int now) { holder = some 7 }) ≡ undefined
condwait_signal-undefined_example =
    condwait_signal-undefined 7 (record (condwait_int now) { holder = some 7 })
