-- ===== src/ThreadLoad/Stop/Ends.antt =====
-- How a loader thread comes to its end once it is stopped.
use slogger.Base.{
  ℕ, suc, ◌+◌, ◌^◌, ◌≤◌, ◌<◌, ◌≡◌, refl, ◌≢◌, Bool, true, false, ◌⊎◌, inl, inr, arith, ap, ◌∙◌, sym,
}
use native.Mathlib.Decide.{dec_lt}
use mathlib.Core.Bool.{false≢true}
use slogger.ThreadLoad.{run_stats}
use slogger.ThreadLoad.Stop.{
  LoaderPc, opening, no_log, entering, testing, logging, waiting, leaving, ended, undefined,
  cleared, Setting, Loader, LoaderStep, opens, cannot_open, enters, no_stats, test, logs, overflows,
  no_text, wakes, leaves, is_over, runs, Reach, next, Goes, stays, step, Inv, Reach-Inv,
}

-- At most so many steps are left once the flag is cleared, of which one is a message.
abbrev steps_left : LoaderPc → ℕ
steps_left opening = 4
steps_left entering = 3
steps_left testing = 2
steps_left logging = 4
steps_left waiting = 3
steps_left leaving = 1
steps_left _ = 0

abbrev messages_left : LoaderPc → ℕ
messages_left logging = 1
messages_left _ = 0

-- With the flag cleared a step of the thread is one towards its end.
record Nears (s t : Loader) : Type 0 where
  flag : t.keeprunning ≡ false
  fewer : steps_left t.thread < steps_left s.thread
  counted : t.ncount + messages_left t.thread ≤ s.ncount + messages_left s.thread

nears : {c : Setting} {s t : Loader} → s.keeprunning ≡ false → LoaderStep c s t → Nears s t
nears {s = s} f (opens e) = ground arith
nears {s = s} f (cannot_open e n) = ground arith
nears {s = s} f (enters e) = ground arith
nears {s = s} f (no_stats e r) = ground arith
nears {s = s} f (test e) = ground arith
nears {s = s} f (logs e lt) = ground arith
nears {s = s} f (overflows e le) = ground arith
nears {s = s} f (no_text e r i) = ground arith
nears {s = s} f (wakes e) = ground arith
nears {c} {s} f (leaves e) = ground arith

bounded :
    {c : Setting} {u s : Loader} {n : ℕ}
    → s.keeprunning ≡ false
    → Goes c u n s
    → (n + steps_left u.thread ≤ steps_left s.thread)
      × (u.ncount + messages_left u.thread ≤ s.ncount + messages_left s.thread)
bounded f stays = (omega arith, omega arith)
bounded f (step l g) =
    let v = nears f l in
    let (a, b) = bounded v.flag g in (omega (arith, a, v.fewer), omega (arith, b, v.counted))

extends : {c : Setting} {u s : Loader} {n : ℕ} → Reach c s → Goes c u n s → Reach c u
extends r stays = r
extends r (step l g) = extends (next r (runs l)) g

-- The thread has returned, or has done something undefined.
abbrev pub is_final : LoaderPc → Bool
is_final undefined = true
is_final pc = is_over pc

abbrev pub Ends : Setting → Loader → Type 0
Ends c s = (n : ℕ) × (u : Loader) × Goes c u n s × (is_final u.thread ≡ true)

then_ends : {c : Setting} {s t : Loader} → LoaderStep c s t → Ends c t → Ends c s
then_ends l (n, u, g, e) = (suc n, u, step l g, e)

at_end : (c : Setting) (s : Loader) → is_final s.thread ≡ true → Ends c s
at_end c s e = (0, s, stays, e)

from_leaving : (c : Setting) (s : Loader) → s.thread ≡ leaving → Ends c s
from_leaving c s e = then_ends (leaves e) (at_end c _ (ground arith))

from_testing : (c : Setting) (s : Loader) → s.keeprunning ≡ false → s.thread ≡ testing → Ends c s
from_testing c s f e = then_ends (test e) (from_leaving c _ (rw f refl))

from_waiting : (c : Setting) (s : Loader) → s.keeprunning ≡ false → s.thread ≡ waiting → Ends c s
from_waiting c s f e = then_ends (wakes e) (from_testing c _ f refl)

from_logging : (c : Setting) (s : Loader) → s.keeprunning ≡ false → s.thread ≡ logging → Ends c s
from_logging c s f e = elim (dec_lt (s.ncount + 1) (2 ^ 31)) [
  | yes lt ↦ then_ends (logs e lt) (from_waiting c _ f refl)
  | no le ↦ then_ends (overflows e (omega arith)) (at_end c _ refl)
]

from_entering : (c : Setting) (s : Loader) → s.keeprunning ≡ false → s.thread ≡ entering → Ends c s
from_entering c s f e = then_ends (enters e) (from_testing c _ f refl)

ends : (c : Setting) (s : Loader) → s.keeprunning ≡ false → Ends c s
ends c s f = from s.thread refl
  where
    from : (pc : LoaderPc) → s.thread ≡ pc → Ends c s
    from opening e = then_ends (opens e) (from_entering c _ f refl)
    from entering e = from_entering c s f e
    from testing e = from_testing c s f e
    from logging e = from_logging c s f e
    from waiting e = from_waiting c s f e
    from leaving e = from_leaving c s e
    from no_log e = at_end c s (ap is_final e)
    from ended e = at_end c s (ap is_final e)
    from undefined e = at_end c s (ap is_final e)

-- Nothing that the thread does from here is undefined.
record Clear (c : Setting) (s : Loader) : Type 0 where
  info : c.info ≡ false
  run : c.run ≢ run_stats
  flag : s.keeprunning ≡ false
  fits : s.thread ≡ logging → s.ncount + 1 < 2 ^ 31
  now : s.thread ≢ undefined

step-Clear : {c : Setting} {s t : Loader} → LoaderStep c s t → Clear c s → Clear c t
step-Clear {c} {s} (opens e) v = ground arith
step-Clear {c} {s} (cannot_open e n) v = ground arith
step-Clear {c} {s} (enters e) v = ground arith
step-Clear {c} {s} (no_stats e r) v = ground arith
step-Clear {c} {s} (test e) v = ground arith
step-Clear {c} {s} (logs e lt) v = ground arith
step-Clear {c} {s} (overflows e le) v = ground arith
step-Clear {c} {s} (no_text e r i) v = ground arith
step-Clear {c} {s} (wakes e) v = ground arith
step-Clear {c} {s} (leaves e) v = ground arith

Goes-Clear : {c : Setting} {u s : Loader} {n : ℕ} → Goes c u n s → Clear c s → Clear c u
Goes-Clear stays v = v
Goes-Clear (step l g) v = Goes-Clear g (step-Clear l v)

-- What `pthread_join` in `thload_stop` can wait for.
pub record Stopping (c : Setting) (s : Loader) : Type 0 where
  pub ends : Ends c s
  pub bounded : {n : ℕ} {u : Loader} → Goes c u n s → (n ≤ 4) × (u.ncount ≤ s.ncount + 1)
  pub joins :
      {n : ℕ} {u : Loader}
      → Goes c u n s
      → is_over u.thread ≡ true
      → (u.thread ≡ no_log) ⊎ (c.info ≡ false)
  pub defined :
      {n : ℕ} {u : Loader}
      → c.info ≡ false
      → c.run ≢ run_stats
      → s.ncount + 1 < 2 ^ 31
      → Goes c u n s
      → u.thread ≢ undefined

-- `pthread_join` in `thload_stop` returns, or the thread does something undefined: from every
-- reachable state with the flag cleared the steps of the thread come to such an end, after at most
-- four of them and one message. When it has returned its log could not be opened, or messages of
-- level `LOG_INFO` are not admitted. If these are not admitted, `run` is not `thload_run` and its
-- count is below the greatest `int`, nothing on the way is undefined.
pub Reach-Stopping : {c : Setting} {s : Loader} → Reach c s → s.stopper ≡ cleared → Stopping c s
Reach-Stopping {c} {s} r e =
    let v = Reach-Inv r in
    let f : s.keeprunning ≡ false = v.flagged (λ x. cc) in
    record {
      ends = ends c s f;
      bounded = λ g. let (a, b) = bounded f g in ground arith;
      joins = λ g o. over (Reach-Inv (extends r g)) o;
      defined = λ i run lt g.
          (Goes-Clear g (record {
            info = i;
            run = run;
            flag = f;
            fits = λ _. lt;
            now = v.sound i (run, lt);
          })).now;
    }
  where
    over : {u : Loader} → Inv c u → is_over u.thread ≡ true → (u.thread ≡ no_log) ⊎ (c.info ≡ false)
    over {u} v o = from u.thread refl
      where
        from : (pc : LoaderPc) → u.thread ≡ pc → (u.thread ≡ no_log) ⊎ (c.info ≡ false)
        from no_log e = inl e
        from ended e = inr (v.quiet e)
        from _ e = absurd (false≢true (sym (ap is_over e) ∙ o))
