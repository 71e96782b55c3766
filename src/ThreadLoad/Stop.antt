-- ===== src/ThreadLoad/Stop.antt =====
-- The thread of `thload_start` and the one that calls `thload_stop`.
pub mod Ends
use slogger.Base.{
  ℕ, suc, ◌+◌, ◌^◌, ◌≤◌, ◌<◌, ◌≡◌, refl, ◌≢◌, Bool, true, false, ◌⊎◌, inl, inr, arith,
  if◌then◌else◌, ap, ◌∙◌, Bool-cases,
}
use native.Mathlib.Decide.{dec_lt}
use slogger.ThreadLoad.{Run, run_stats}

-- Where `load_thread` stands, with the loop of `thload_run1`, `thload_run_notused` or `thload_run`.
pub data LoaderPc : Type 0 where
  opening : LoaderPc  -- before `fopen` of the log
  no_log : LoaderPc  -- has returned NULL, since the log could not be opened
  entering : LoaderPc  -- in `run`, before its loop
  testing : LoaderPc  -- before the test of `keeprunning`
  logging : LoaderPc  -- before the message
  waiting : LoaderPc  -- in `condwait.wait`, which times out, or in `usleep`
  leaving : LoaderPc  -- behind the loop, before the message of `load_thread`
  ended : LoaderPc
  undefined : LoaderPc  -- has done something that the language leaves undefined

pub data StopPc : Type 0 where
  started cleared joined : StopPc

-- What stays: whether messages of level `LOG_INFO` are admitted, whether the thread has a file for
-- its log, and what `run` points at.
pub record Setting : Type 0 where
  pub info : Bool
  pub named : Bool
  pub run : Run

pub record Loader : Type 0 where
  pub keeprunning : Bool
  pub thread : LoaderPc
  pub stopper : StopPc
  pub ncount : ℕ

-- Behind `thload_start`.
abbrev pub start : Loader
start = record { keeprunning = true; thread = opening; stopper = started; ncount = 0 }

-- `thload_run` passes on the NULL of a `fopen` that fails, and prints a buffer that may have no
-- terminator; `ncount++` is undefined at the greatest `int`; and the message behind the loop prints
-- `pthread_self()` with `%s`.
pub data LoaderStep (c : Setting) (s : Loader) : Loader → Type 0 where
  opens : s.thread ≡ opening → LoaderStep c s (record s { thread = entering })
  cannot_open : s.thread ≡ opening → c.named ≡ true → LoaderStep c s (record s { thread = no_log })
  enters : s.thread ≡ entering → LoaderStep c s (record s { thread = testing })
  no_stats :
      s.thread ≡ entering → c.run ≡ run_stats → LoaderStep c s (record s { thread = undefined })
  test :
      s.thread ≡ testing
      → LoaderStep c s (record s { thread = if s.keeprunning then logging else leaving })
  logs :
      s.thread ≡ logging
      → s.ncount + 1 < 2 ^ 31
      → LoaderStep c s (record s { thread = waiting; ncount = s.ncount + 1 })
  overflows :
      s.thread ≡ logging → 2 ^ 31 ≤ s.ncount + 1 → LoaderStep c s (record s { thread = undefined })
  no_text :
      s.thread ≡ logging
      → c.run ≡ run_stats
      → c.info ≡ true
      → LoaderStep c s (record s { thread = undefined })
  wakes : s.thread ≡ waiting → LoaderStep c s (record s { thread = testing })
  leaves :
      s.thread ≡ leaving
      → LoaderStep c s (record s { thread = if c.info then undefined else ended })

abbrev pub is_over : LoaderPc → Bool
is_over no_log = true
is_over ended = true
is_over _ = false

-- A step of either thread. `thload_stop` clears the flag and joins.
pub data Step (c : Setting) (s : Loader) : Loader → Type 0 where
  runs : {t : Loader} → LoaderStep c s t → Step c s t
  clears : s.stopper ≡ started → Step c s (record s { keeprunning = false; stopper = cleared })
  joins : s.stopper ≡ cleared → is_over s.thread ≡ true → Step c s (record s { stopper = joined })

pub data Reach (c : Setting) : Loader → Type 0 where
  here : Reach c start
  next : {s t : Loader} → Reach c s → Step c s t → Reach c t

-- Steps of the loader thread alone, counted.
pub data Goes (c : Setting) (u : Loader) : ℕ → Loader → Type 0 where
  stays : Goes c u 0 u
  step : {n : ℕ} {s t : Loader} → LoaderStep c s t → Goes c u n t → Goes c u (suc n) s

-- What may be undefined before the message behind the loop.
abbrev pub Sound : Setting → Loader → Type 0
Sound c s = (c.run ≢ run_stats) × (s.ncount + 1 < 2 ^ 31)

pub record Inv (c : Setting) (s : Loader) : Type 0 where
  pub flagged : s.stopper ≢ started → s.keeprunning ≡ false
  pub quiet : s.thread ≡ ended → c.info ≡ false
  pub sound : c.info ≡ false → Sound c s → s.thread ≢ undefined

runs-Inv : {c : Setting} {s t : Loader} → LoaderStep c s t → Inv c s → Inv c t
runs-Inv {c} {s} (opens e) v = ground arith
runs-Inv {c} {s} (cannot_open e n) v = ground arith
runs-Inv {c} {s} (enters e) v = ground arith
runs-Inv {c} {s} (no_stats e r) v = ground arith
runs-Inv {c} {s} (test e) v = ground arith
runs-Inv {c} {s} (logs e lt) v = ground arith
runs-Inv {c} {s} (overflows e le) v = ground arith
runs-Inv {c} {s} (no_text e r i) v = ground arith
runs-Inv {c} {s} (wakes e) v = ground arith
runs-Inv {c} {s} (leaves e) v = ground arith

pub Reach-Inv : {c : Setting} {s : Loader} → Reach c s → Inv c s
Reach-Inv here = ground arith
Reach-Inv (next r (runs l)) = runs-Inv l (Reach-Inv r)
Reach-Inv (next {s} r (clears e)) = let v = Reach-Inv r in ground arith
Reach-Inv (next {s} r (joins e o)) = let v = Reach-Inv r in ground arith
