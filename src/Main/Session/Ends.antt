-- ===== src/Main/Session/Ends.antt =====
-- The logger part of `main` never gets stuck.
use slogger.Base.{
  if◌then◌else◌, ◌⊎◌, ◌≤◌, ◌≡◌, refl, ◌≢◌, true, ℕ, List, [], ◌∷◌, length, Bool-cases, inl, inr,
  ◌∙◌, ap,
}
use slogger.Logger.{
  QueueData, Queue, must_wait, stored, rejected, invalid, closed, message, garbage, Taken,
  dequeue_locked, out_of_memory, sent,
}
use slogger.Logger.System.{
  LoggerPc, opening, failed, ready, deciding, sleepy, waiting, leaving, writing, ended, crashed,
  Phase, created, sized, running, flagged, signalled, joined, System, LoggerStep, not_opened, test,
  sleep, take, mutex_free, returned, after_take, Drains, done, step,
}
use slogger.Logger.Safety.{Reach-drains}
use slogger.Common.{Slogged, silent, no_memory, overflow, pushed}
use slogger.Condwait.{Timespec}
use slogger.Main.Session.{
  Action, say, rest, Program, ProgramStep, Runs, begin, after_say, log_record, log_info, logs,
  size_queue, make_array, speak, pause, flag, signal, join, stop,
}
use slogger.Main.Session.Invariant.{messages, Fit, Inv}
use slogger.Main.Session.Preserve.{Runs-Inv, ProgramStep-Inv, LoggerStep-same}

pc-cases : (pc : LoggerPc) → (pc ≡ opening) ⊎ ((pc ≡ failed) ⊎ ((pc ≢ opening) × (pc ≢ failed)))
pc-cases opening = inl refl
pc-cases failed = inr (inl refl)
pc-cases _ = inr (inr (λ e. cc, λ e. cc))

-- Some continuation of the run gets to the end of `main`.
pub data CanEnd : Program → Type 0 where
  over : {p : Program} → p.stopped ≡ true → CanEnd p
  on : {p p' : Program} → ProgramStep p p' → CanEnd p' → CanEnd p

take-free : (s : System) (r : Taken × Queue) → (mutex_free (after_take r s).logger ≡ true)
take-free s (closed, q) = refl
take-free s (message d, q) = refl
take-free s (garbage, q) = refl

say-phase : (d : QueueData) (r : Slogged) (s : System) → (after_say d r s).phase ≡ s.phase
say-phase d silent s = refl
say-phase d no_memory s = refl
say-phase d overflow s = refl
say-phase d (pushed (out_of_memory, q)) s = refl
say-phase d (pushed (sent stored w, q)) s = refl
say-phase d (pushed (sent rejected w, q)) s = refl
say-phase d (pushed (sent invalid w, q)) s = refl

from_joined : {p : Program} → p.system.phase ≡ joined → CanEnd p
from_joined {p} e = elim (Bool-cases p.stopped) [
  | inl h ↦ over h
  | inr h ↦ on (stop e h) (over refl)
]

along :
    (p : Program) {t s : System} {n : ℕ}
    → Drains t n s
    → (t.phase ≡ s.phase → CanEnd (record p { system = t }))
    → CanEnd (record p { system = s })
along p done go = go refl
along p (step st d) go = on (logs st) (along p d (λ e. go (e ∙ (LoggerStep-same st).1)))

-- The run can end from wherever the logging thread does not hold the mutex.
abbrev Free : Timespec → List Action → Program → Type 0
Free now all p =
    (t : System)
    → t.phase ≡ p.system.phase
    → mutex_free t.logger ≡ true
    → Inv now all (record p { system = t })
    → CanEnd (record p { system = t })

module _ {now : Timespec} {all : List Action} (few : length (messages all) ≤ 2048) where
  drop_off : {p : Program} → p.system.logger ≡ sleepy → Inv now all p → Free now all p → CanEnd p
  drop_off e v go = let st = logs (sleep e) in on st (go _ refl refl (ProgramStep-Inv few st v))

  leave : {p : Program} → p.system.logger ≡ leaving → Inv now all p → Free now all p → CanEnd p
  leave {p} e v go =
      let st : LoggerStep p.system (after_take (dequeue_locked p.system.queue) p.system) = take e in
      on (logs st) (
        go _ (LoggerStep-same st).1 (take-free p.system (dequeue_locked p.system.queue))
          (ProgramStep-Inv few (logs st) v))

  -- The logging thread gets to a point where it does not hold the mutex.
  unlocked :
      {p : Program} (pc : LoggerPc)
      → p.system.logger ≡ pc
      → Inv now all p
      → Free now all p
      → CanEnd p
  unlocked {p} deciding e v go =
      let st = logs (test e) in
      let v' = ProgramStep-Inv few st v in
      on st (elim (Bool-cases (must_wait p.system.queue)) [
        | inl w ↦ drop_off (ap (λ b. if b then sleepy else leaving) w) v' go
        | inr w ↦ leave (ap (λ b. if b then sleepy else leaving) w) v' go
      ])
  unlocked sleepy e v go = drop_off e v go
  unlocked {p} leaving e v go = leave e v go
  unlocked {p} opening e v go = go p.system refl (ap mutex_free e) v
  unlocked {p} failed e v go = go p.system refl (ap mutex_free e) v
  unlocked {p} ready e v go = go p.system refl (ap mutex_free e) v
  unlocked {p} waiting e v go = go p.system refl (ap mutex_free e) v
  unlocked {p} (writing d) e v go = go p.system refl (ap mutex_free e) v
  unlocked {p} ended e v go = go p.system refl (ap mutex_free e) v
  unlocked {p} crashed e v go = go p.system refl (ap mutex_free e) v

  from_signalled : {p : Program} → Inv now all p → p.system.phase ≡ signalled → CanEnd p
  from_signalled {p} v e = elim (pc-cases p.system.logger) [
    | inl op ↦ let st = logs (not_opened op) in on st (on (join e refl) (from_joined refl))
    | inr (inl fa) ↦ on (join e (ap returned fa)) (from_joined refl)
    | inr (inr (op, fa)) ↦
        let d = Reach-drains v.reach e op fa in
        along p d.path (λ same. on (join (same ∙ e) (ap returned d.over)) (from_joined refl))
  ]

  from_flagged : {p : Program} → Inv now all p → p.system.phase ≡ flagged → CanEnd p
  from_flagged {p} v e = unlocked p.system.logger refl v (λ t same free v'.
      let st = signal (same ∙ e) free in on st (from_signalled (ProgramStep-Inv few st v') refl))

  from_running :
      (todo : List Action) {p : Program}
      → p.todo ≡ todo
      → Inv now all p
      → p.system.phase ≡ running
      → CanEnd p
  from_running [] t v e = let st = flag e t in on st (from_flagged (ProgramStep-Inv few st v) refl)
  from_running (say a b x ∷ todo) {p} t v e = unlocked p.system.logger refl v (λ s same free v'.
      let st = speak (same ∙ e) t free in
      on st (
        from_running todo refl (ProgramStep-Inv few st v')
          (say-phase (log_record x) (log_info a b x s.queue) s ∙ (same ∙ e))))
  from_running (rest s m r ∷ todo) t v e =
      let st = pause e t in on st (from_running todo refl (ProgramStep-Inv few st v) e)

  from_sized : {p : Program} → Inv now all p → p.system.phase ≡ sized → CanEnd p
  from_sized {p} v e =
      let st = make_array e in on st (from_running p.todo refl (ProgramStep-Inv few st v) refl)

  from : {p : Program} (phase : Phase) → p.system.phase ≡ phase → Inv now all p → CanEnd p
  from created e v = let st = size_queue e in on st (from_sized (ProgramStep-Inv few st v) refl)
  from sized e v = from_sized v e
  from {p} running e v = from_running p.todo refl v e
  from flagged e v = from_flagged v e
  from signalled e v = from_signalled v e
  from joined e v = from_joined e

-- No run gets stuck: in every reachable state of a program that starts and stops the logger as
-- `main` does, and in between calls `condwait.wait` and, at most 2048 times, `slog_message`, if
-- the lines fit the buffer and every `malloc` succeeds, some continuation of the run gets to the
-- end of `main`.
pub Runs-CanEnd :
    (now : Timespec) {actions : List Action} {p : Program}
    → length (messages actions) ≤ 2048
    → Fit actions
    → Runs (begin now actions) p
    → CanEnd p
Runs-CanEnd now {p = p} few fit r = from few p.system.phase refl (Runs-Inv few fit r)
