-- ===== src/Main/Session/Bounded.antt =====
-- The logger part of `main` always comes to its end: its runs are bounded, and only the last state
-- of `main` has no step.
use slogger.Common.{Line}
use slogger.Base.{
  ℕ, suc, ◌+◌, ◌*◌, ◌≤◌, ◌≡◌, refl, ◌⊎◌, inl, inr, Bool, true, false, if◌then◌else◌, List, [], ◌∷◌,
  length, arith, Bool-cases, ap, sym,
}
use mathlib.Core.Path.{subst}
use slogger.Logger.{set_capacity, allocate, close, release}
use slogger.Logger.System.{
  LoggerPc, Phase, created, sized, running, flagged, signalled, joined, opening, failed, ready,
  deciding, sleepy, waiting, leaving, writing, ended, crashed, opened, lock, test, sleep, take,
  write, mutex_free, returned,
}
use slogger.Logger.Busy.{busy, wake-left, LoggerStep-busy}
use slogger.Logger.Preserve.{Reach-Inv}
use slogger.Condwait.{Timespec}
use slogger.Main.Session.{
  Action, say, rest, Program, ProgramStep, Runs, begin, after_say, log_record, log_info, logs,
  spurious, size_queue, make_array, speak, pause, flag, signal, join, stop, here, next,
}
use slogger.Main.Session.Invariant.{messages, Fit, Inv}
use slogger.Main.Session.Preserve.{Runs-Inv, spoken-put, LoggerStep-same}

-- The steps of a run, and those of them that are spurious wake-ups.
pub steps : {p p' : Program} → Runs p p' → ℕ
steps here = 0
steps (next r st) = suc (steps r)

abbrev pub is_spurious : {p p' : Program} → ProgramStep p p' → Bool
is_spurious (spurious e) = true
is_spurious _ = false

pub wakeups : {p p' : Program} → Runs p p' → ℕ
wakeups here = 0
wakeups (next r st) = let n = wakeups r in if is_spurious st then suc n else n

-- The calls of `main` on the logger that are still to come.
abbrev phases_left : Phase → ℕ
phases_left created = 5
phases_left sized = 4
phases_left running = 3
phases_left flagged = 2
phases_left signalled = 1
phases_left joined = 0

abbrev calls_left : Program → ℕ
calls_left p = phases_left p.system.phase + length p.todo + (if p.stopped then 0 else 1)

-- Each call leaves at most seven steps more to the logging thread, and each step of that thread one
-- less.
abbrev potential : Program → ℕ
potential p = 8 * calls_left p + busy p.system

abbrev budget : Bool → ℕ
budget true = 4
budget false = 0

module _ {now : Timespec} {all : List Action} {p : Program} (few : length (messages all) ≤ 2048)
    (v : Inv now all p) where
  speak-potential :
      {store_ok record_ok : Bool} {x : Line} {actions : List Action}
      → p.system.phase ≡ running
      → p.todo ≡ say store_ok record_ok x ∷ actions
      → let p' = record p {
        system = after_say (log_record x) (log_info store_ok record_ok x p.system.queue) p.system;
        todo = actions;
      } in
        suc (potential p') ≤ potential p
  speak-potential {store_ok} {record_ok} {x} {actions} e t =
      subst (λ u. suc (potential (record p { system = u; todo = actions })) ≤ potential p)
        (sym (spoken-put few v e t).1) (omega (arith, wake-left p.system.logger, ap length t))

  step-potential :
      {p' : Program} (st : ProgramStep p p')
      → suc (potential p') ≤ potential p + budget (is_spurious st)
  unfolding set_capacity allocate close release
  step-potential (logs st) =
      let (xs, w) = Reach-Inv v.reach in
      let less = LoggerStep-busy st w in
      let (acc, ph) = LoggerStep-same st in rw ph (omega (arith, less))
  step-potential (spurious e) = ground arith
  step-potential (size_queue e) = ground arith
  step-potential (make_array e) = ground arith
  step-potential (speak e t free) = omega (arith, speak-potential e t)
  step-potential (pause e t) = ground arith
  step-potential (flag e t) = ground arith
  step-potential (signal e free) = omega (arith, wake-left p.system.logger, ap phases_left e)
  step-potential (join e o) = ground arith
  step-potential (stop e n) = ground arith

charge : (b : Bool) (n : ℕ) → 4 * (if b then suc n else n) ≡ 4 * n + budget b
charge true n = omega arith
charge false n = omega arith

steps-potential :
    (now : Timespec) {all : List Action} {p : Program}
    → length (messages all) ≤ 2048
    → Fit all
    → (r : Runs (begin now all) p)
    → steps r + potential p ≤ potential (begin now all) + 4 * wakeups r
unfolding steps wakeups
steps-potential now few fit here = omega arith
steps-potential now few fit (next r st) = omega (
  arith,
  steps-potential now few fit r,
  step-potential few (Runs-Inv few fit r) st,
  charge (is_spurious st) (wakeups r),
)

-- A step that is no spurious wake-up is possible.
abbrev pub CanStep : Program → Type 0
CanStep p = (p' : Program) × (st : ProgramStep p p') × (is_spurious st ≡ false)

-- While the logging thread holds the mutex it can go on.
locked-CanStep :
    {p : Program} (pc : LoggerPc) → p.system.logger ≡ pc → mutex_free pc ≡ false → CanStep p
locked-CanStep deciding e l = (_, logs (test e), refl)
locked-CanStep sleepy e l = (_, logs (sleep e), refl)
locked-CanStep leaving e l = (_, logs (take e), refl)
locked-CanStep _ e l = absurd (ground arith)

module _ {now : Timespec} {all : List Action} {p : Program} (v : Inv now all p) where
  -- Behind the signal the logging thread can go on, or be joined.
  signalled-CanStep :
      (pc : LoggerPc) → p.system.logger ≡ pc → p.system.phase ≡ signalled → CanStep p
  signalled-CanStep opening l e = (_, logs (opened l), refl)
  signalled-CanStep ready l e = (_, logs (lock l), refl)
  signalled-CanStep (writing d) l e = (_, logs (write d l), refl)
  signalled-CanStep ended l e = (_, join e (ap returned l), refl)
  signalled-CanStep failed l e = (_, join e (ap returned l), refl)
  signalled-CanStep waiting l e = let (xs, w) = Reach-Inv v.reach in absurd (ground arith)
  signalled-CanStep crashed l e = let (xs, w) = Reach-Inv v.reach in absurd (ground arith)
  signalled-CanStep deciding l e = locked-CanStep deciding l refl
  signalled-CanStep sleepy l e = locked-CanStep sleepy l refl
  signalled-CanStep leaving l e = locked-CanStep leaving l refl

  running-CanStep :
      (todo : List Action)
      → p.todo ≡ todo
      → mutex_free p.system.logger ≡ true
      → p.system.phase ≡ running
      → CanStep p
  running-CanStep [] t f e = (_, flag e t, refl)
  running-CanStep (say a b x ∷ todo) t f e = (_, speak e t f, refl)
  running-CanStep (rest s m r ∷ todo) t f e = (_, pause e t, refl)

  free-CanStep :
      (phase : Phase)
      → p.system.phase ≡ phase
      → mutex_free p.system.logger ≡ true
      → p.stopped ≡ false
      → CanStep p
  free-CanStep created e f n = (_, size_queue e, refl)
  free-CanStep sized e f n = (_, make_array e, refl)
  free-CanStep running e f n = running-CanStep p.todo refl f e
  free-CanStep flagged e f n = (_, signal e f, refl)
  free-CanStep signalled e f n = signalled-CanStep p.system.logger refl e
  free-CanStep joined e f n = (_, stop e n, refl)

  Inv-CanStep : (p.stopped ≡ true) ⊎ CanStep p
  Inv-CanStep = elim (Bool-cases p.stopped) [
    | inl over ↦ inl over
    | inr n ↦ inr (elim (Bool-cases (mutex_free p.system.logger)) [
      | inl f ↦ free-CanStep p.system.phase refl f n
      | inr l ↦ locked-CanStep p.system.logger refl l
    ])
  ]

-- Every run comes to its end, without any fairness: a run of a program that starts and stops the
-- logger as `main` does, and in between makes calls of `condwait.wait` and, at most 2048 times,
-- `slog_message`, where the lines fit the buffer and every `malloc` succeeds, has at most 52 steps
-- and 8 for each of these calls and 4 for each spurious wake-up, whatever the order of the
-- threads; and in each of its states either `main` is at its end or some thread can take a step
-- that is no spurious wake-up.
pub Runs-Bounded :
    (now : Timespec) {actions : List Action} {p : Program}
    → length (messages actions) ≤ 2048
    → Fit actions
    → (r : Runs (begin now actions) p)
    → (steps r ≤ 8 * length actions + 52 + 4 * wakeups r) × ((p.stopped ≡ true) ⊎ CanStep p)
Runs-Bounded now few fit r =
    (omega (arith, steps-potential now few fit r), Inv-CanStep (Runs-Inv few fit r))
