-- ===== src/Exec/Wait.antt =====
-- The loop over `waitpid`.
use slogger.Base.{
  length, zero, suc, none, ◌≢◌, ℕ, ◌+◌, ◌≡◌, refl, Bool, true, false, some, List, [], ◌∷◌, ◌++◌,
  arith,
}
use mathlib.Core.Bool.{false≢true}
use slogger.Exec.{
  exited, killed, stopped, continued, unexpected, Stopped, Status, Answer, failure, status,
  is_final, is_success, continues, returned, fork_dup2_exec_result, exec_stop,
}

-- Reports of a child that has not ended.
abbrev pub AllAlive : List Status → Type 0
AllAlive [] = Unit {0}
AllAlive (s ∷ ss) = (is_final s ≡ false) × AllAlive ss

abbrev pub answers : List Status → List Answer
answers [] = []
answers (s ∷ ss) = status s ∷ answers ss

-- The number of reports of a stopped child.
abbrev pub stops : List Status → ℕ
stops [] = 0
stops (s ∷ ss) = continues s + stops ss

final-continues : (s : Status) → is_final s ≡ true → continues s ≡ 0
final-continues s f = ground arith

-- `fork_dup2_exec_result` passes over the reports of a child that is alive, sends one `SIGCONT`
-- for each report of a stop, and returns at the first final status, with that status.
pub fork_dup2_exec_result-returned :
    (before : List Status) (s : Status) (rest : List Answer)
    → AllAlive before
    → is_final s ≡ true
    → fork_dup2_exec_result (answers before ++ (status s ∷ rest)) ≡ (returned s, stops before)
unfolding fork_dup2_exec_result
fork_dup2_exec_result-returned [] s rest a f = rw (f, final-continues s f) refl
fork_dup2_exec_result-returned (b ∷ before) s rest (e, a) f =
    rw (e, fork_dup2_exec_result-returned before s rest a f) refl

-- A status that `fork_dup2_exec_result` returns is one of a child that has exited or was killed.
pub fork_dup2_exec_result-is_final :
    (old : List Answer) (s : Status)
    → (fork_dup2_exec_result old).0 ≡ returned s
    → is_final s ≡ true
unfolding fork_dup2_exec_result
fork_dup2_exec_result-is_final [] s e = ground arith
fork_dup2_exec_result-is_final (failure ∷ old) s e = ground arith
fork_dup2_exec_result-is_final (status t ∷ old) s e =
    ground (arith, fork_dup2_exec_result-is_final old s)

-- The child has exited with code 0.
abbrev pub exits_zero : Status → Bool
exits_zero (exited zero) = true
exits_zero _ = false

pub is_success-exits_zero : (s : Status) → is_success (returned s) ≡ exits_zero s
is_success-exits_zero (exited zero) = refl
is_success-exits_zero (exited (suc n)) = ground arith
is_success-exits_zero (killed n) = refl
is_success-exits_zero (stopped n) = refl
is_success-exits_zero continued = refl
is_success-exits_zero unexpected = refl

exits_zero-exited : (s : Status) → exits_zero s ≡ true → s ≡ exited 0
exits_zero-exited (exited zero) e = refl
exits_zero-exited (exited (suc n)) e = absurd (false≢true e)
exits_zero-exited (killed n) e = absurd (false≢true e)
exits_zero-exited (stopped n) e = absurd (false≢true e)
exits_zero-exited continued e = absurd (false≢true e)
exits_zero-exited unexpected e = absurd (false≢true e)

-- The signals that have stopped the child.
abbrev pub stop_signals : List Status → List ℕ
stop_signals [] = []
stop_signals (stopped n ∷ ss) = n ∷ stop_signals ss
stop_signals (exited _ ∷ ss) = stop_signals ss
stop_signals (killed _ ∷ ss) = stop_signals ss
stop_signals (continued ∷ ss) = stop_signals ss
stop_signals (unexpected ∷ ss) = stop_signals ss

stops-length : (ss : List Status) → stops ss ≡ length (stop_signals ss)
stops-length [] = refl
stops-length (stopped n ∷ ss) = omega (arith, stops-length ss)
stops-length (exited n ∷ ss) = omega (arith, stops-length ss)
stops-length (killed n ∷ ss) = omega (arith, stops-length ss)
stops-length (continued ∷ ss) = omega (arith, stops-length ss)
stops-length (unexpected ∷ ss) = omega (arith, stops-length ss)

-- What stopping a child comes to, whose reports are `before` and then `s`.
pub record Stops (blocking : Bool) (before : List Status) (s : Status) (x : Stopped) : Type 0 where
  pub returns : x.joined ≢ none
  pub joins : x.joined ≡ some true → s ≡ exited 0
  pub joined : s ≡ exited 0 → x.joined ≡ some true
  pub conts : x.conts ≡ length (stop_signals before)
  pub interrupts : x.interrupted ≡ true → blocking ≡ false
  pub interrupted : blocking ≡ false → x.interrupted ≡ true

-- When the child is alive in the reports before and final in the last, `exec_stop` returns; it
-- joins the thread exactly if that last report is of an exit with code 0, whatever `waitpid` would
-- report afterwards; it has sent one `SIGCONT` for each report of a stop, and no more; and it has
-- interrupted the child exactly if it is not blocking.
pub exec_stop_lem :
    (blocking : Bool) (before : List Status) (s : Status) (rest : List Answer)
    → AllAlive before
    → is_final s ≡ true
    → Stops blocking before s (exec_stop blocking (answers before ++ (status s ∷ rest)))
unfolding exec_stop
exec_stop_lem blocking before s rest a f =
    let flag = is_success-exits_zero s in
    rw (fork_dup2_exec_result-returned before s rest a f, flag)
      (record {
        returns = λ e. ground arith;
        joins = λ e. exits_zero-exited s (ground arith);
        joined = λ e. rw e refl;
        conts = stops-length before;
        interrupts = λ e. ground arith;
        interrupted = λ e. rw e refl;
      })
