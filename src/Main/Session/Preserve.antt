-- ===== src/Main/Session/Preserve.antt =====
-- Every step of the logger part of `main` keeps its invariant.
use slogger.Base.{
  ℕ, ◌≤◌, ◌<◌, ◌+◌, ◌≡◌, refl, Bool, true, false, List, [], ◌∷◌, ◌++◌, arith, length, append_assoc,
  length-append, Bool-cases, inl, inr, ◌==◌, ◌||◌, ◌∙◌, sym, ap, pos,
}
use mathlib.Core.Path.{subst, ap₂}
use slogger.Logger.{
  Queue, stored, closed, message, garbage, Taken, dequeue_locked, enqueue_locked, put,
}
use slogger.Logger.System.{
  System, LoggerStep, opened, not_opened, lock, test, sleep, take, write, after_take, after_push,
  Phase, flagged, signalled, joined, running, Reach, mutex_free,
}
use slogger.Logger.System
use slogger.Logger.Refine.{enqueue-stored}
use slogger.Logger.Preserve.{Reach-Inv}
use slogger.Logger.Invariant.{in_hand, InPhase}
use slogger.Common.{Line, info, file_line, store_size, adbshell}
use slogger.Common.Route.{slog_message-put}
use slogger.Condwait.{Timespec, Call, and_then, condwait_wait}
use slogger.Main.Session.{
  Action, say, rest, Program, ProgramStep, Runs, begin, log_record, after_say, log_info,
  main_thread, logs, spurious, size_queue, make_array, speak, pause, flag, signal, join, stop, here,
  next,
}
use slogger.Main.Session.Invariant.{messages, settle, Fit, is_past, Inv}

-- A step of the logging thread accepts nothing and leaves the phase as it is.
pub LoggerStep-same :
    {s t : System} → LoggerStep s t → (t.accepted ≡ s.accepted) × (t.phase ≡ s.phase)
LoggerStep-same (opened e) = (refl, refl)
LoggerStep-same (not_opened e) = (refl, refl)
LoggerStep-same (lock e) = (refl, refl)
LoggerStep-same (test e) = (refl, refl)
LoggerStep-same (sleep e) = (refl, refl)
LoggerStep-same {s} (take e) = same (dequeue_locked s.queue)
  where
    same :
        (r : Taken × Queue)
        → ((after_take r s).accepted ≡ s.accepted) × ((after_take r s).phase ≡ s.phase)
    same (closed, q) = (refl, refl)
    same (message d, q) = (refl, refl)
    same (garbage, q) = (refl, refl)
LoggerStep-same (write d e) = (refl, refl)

-- While the logger runs and fewer than 2048 messages were accepted, `slog_message` stores its line.
pub say-accepted :
    {s : System} (x : Line)
    → Reach s
    → s.phase ≡ running
    → length s.accepted < 2048
    → length (file_line info x) < store_size
    → (enqueue_locked (log_record x) s.queue ≡ (stored, put (log_record x) s.queue))
      × (after_say (log_record x) (log_info true true x s.queue) s
          ≡ after_push (log_record x) (stored, put (log_record x) s.queue) s)
say-accepted {s} x r e few short =
    let (xs, v) = Reach-Inv r in
    let held : length s.accepted ≡ length s.written + (length (in_hand s.logger) + length xs) =
      ap length v.order
      ∙ (length-append s.written (in_hand s.logger ++ xs)
          ∙ ap (λ n. length s.written + n) (length-append (in_hand s.logger) xs)) in
    let (opn, rep) : InPhase running s.queue xs =
      subst (λ ph. InPhase ph s.queue xs) e v.in_phase in
    let full : s.queue.size < s.queue.capacity = omega (arith, rep.size, rep.capacity) in
    let room : (s.queue.size == s.queue.capacity || s.queue.shutdown) ≡ false = ground arith in
    (
      (enqueue-stored (log_record x) rep room).0,
      ap (λ r. after_say (log_record x) r.1 s)
          (slog_message-put adbshell (pos 2) (pos 2) x s.queue refl short rep room),
    )

pub begin-Inv :
    (now : Timespec) (actions : List Action) → Fit actions → Inv now actions (begin now actions)
begin-Inv now actions fit = record {
  reach = System.here;
  kept = refl;
  fit = fit;
  past = λ e. cc;
  calls = refl;
  over = λ e. cc;
}

-- A step that accepts nothing and is no call of the list.
moved :
    {now : Timespec} {actions : List Action} {p : Program} {t : System}
    → Inv now actions p
    → System.Step p.system t
    → t.accepted ≡ p.system.accepted
    → (is_past t.phase ≡ true → p.todo ≡ [])
    → (p.stopped ≡ true → t.phase ≡ joined)
    → Inv now actions (record p { system = t })
moved {p = p} v st e past over = record {
  reach = System.next v.reach st;
  kept = ap (λ xs. xs ++ messages p.todo) e ∙ v.kept;
  fit = v.fit;
  past = past;
  calls = v.calls;
  over = over;
}

unstopped :
    {now : Timespec} {all : List Action} {p : Program}
    → Inv now all p
    → p.system.phase ≡ running
    → p.stopped ≡ false
unstopped {p = p} v e = elim (Bool-cases p.stopped) [ inl h ↦ let o = v.over h in cc | inr h ↦ h ]

-- A call of the list, before `condwait.stop`.
called :
    {b : Bool} {todo actions : List Action} {a : Action} {target : Call} (c c' : Call)
    → b ≡ false
    → todo ≡ a ∷ actions
    → settle false (a ∷ actions) c ≡ settle false actions c'
    → settle b todo c ≡ target
    → settle b actions c' ≡ target
called c c' u t move h = rw u (sym move ∙ (sym (ap₂ (λ b todo. settle b todo c) u t) ∙ h))

-- A `slog_message` of `main` stores its line.
pub spoken-put :
    {now : Timespec} {all : List Action} {p : Program} {store_ok record_ok : Bool} {x : Line}
    {actions : List Action}
    → length (messages all) ≤ 2048
    → Inv now all p
    → p.system.phase ≡ running
    → p.todo ≡ say store_ok record_ok x ∷ actions
    → (enqueue_locked (log_record x) p.system.queue ≡ (stored, put (log_record x) p.system.queue))
      × (after_say (log_record x) (log_info store_ok record_ok x p.system.queue) p.system
          ≡ after_push (log_record x) (stored, put (log_record x) p.system.queue) p.system)
spoken-put {now} {all} {p} {store_ok} {record_ok} {x} {actions} few v e t =
    let (store_fine, record_fine, short, fit) = subst Fit t v.fit in
    let kept : p.system.accepted ++ (log_record x ∷ messages actions) ≡ messages all =
      subst (λ todo. p.system.accepted ++ messages todo ≡ messages all) t v.kept in
    let counted = ap length kept in
    let room : length p.system.accepted < 2048 =
      omega (arith, counted, length-append p.system.accepted (log_record x ∷ messages actions)) in
    let (acc, said) = say-accepted x v.reach e room short in
    let same =
      ap₂ (λ a b. after_say (log_record x) (log_info a b x p.system.queue) p.system) store_fine
        record_fine in
    (acc, same ∙ said)

spoken :
    {now : Timespec} {all : List Action} {p : Program} {store_ok record_ok : Bool} {x : Line}
    {actions : List Action}
    → length (messages all) ≤ 2048
    → Inv now all p
    → p.system.phase ≡ running
    → p.todo ≡ say store_ok record_ok x ∷ actions
    → mutex_free p.system.logger ≡ true
    → Inv now all (record p {
      system = after_say (log_record x) (log_info store_ok record_ok x p.system.queue) p.system;
      todo = actions;
    })
spoken {now} {all} {p} {x = x} {actions = actions} few v e t free =
    let (acc, said) = spoken-put few v e t in
    subst (λ u. Inv now all (record p { system = u; todo = actions })) (sym said)
      (record {
        reach =
            subst (λ r. Reach (after_push (log_record x) r p.system)) acc
              (System.next v.reach (System.push (log_record x) free (ap System.may_push e)));
        kept =
            append_assoc p.system.accepted (log_record x ∷ []) (messages actions)
            ∙ subst (λ todo. p.system.accepted ++ messages todo ≡ messages all) t v.kept;
        fit = (subst Fit t v.fit).3;
        past = λ h. cc;
        calls = called p.condwait _ (unstopped v e) t refl v.calls;
        over = v.over;
      })

-- A `condwait.wait` of `main`.
paused :
    {now : Timespec} {all : List Action} {p : Program} {seconds ms result : ℕ}
    {actions : List Action}
    → Inv now all p
    → p.system.phase ≡ running
    → p.todo ≡ rest seconds ms result ∷ actions
    → Inv now all (record p {
      condwait = and_then p.condwait (condwait_wait main_thread result (pos seconds) (pos ms));
      todo = actions;
    })
paused {now} {all} {p} v e t = record {
  reach = v.reach;
  kept = subst (λ todo. p.system.accepted ++ messages todo ≡ messages all) t v.kept;
  fit = subst Fit t v.fit;
  past = λ h. cc;
  calls = called p.condwait _ (unstopped v e) t refl v.calls;
  over = v.over;
}

pub ProgramStep-Inv :
    {now : Timespec} {actions : List Action} {p p' : Program}
    → length (messages actions) ≤ 2048
    → ProgramStep p p'
    → Inv now actions p
    → Inv now actions p'
ProgramStep-Inv few (logs st) v =
    let (acc, ph) = LoggerStep-same st in
    moved v (System.logs st) acc (λ h. v.past (ap is_past (sym ph) ∙ h)) (λ h. ph ∙ v.over h)
ProgramStep-Inv few (spurious e) v = moved v (System.spurious e) refl v.past v.over
ProgramStep-Inv few (size_queue e) v =
    moved v (System.size_queue e) refl (λ h. cc) (λ h. let o = v.over h in cc)
ProgramStep-Inv few (make_array e) v =
    moved v (System.make_array e) refl (λ h. cc) (λ h. let o = v.over h in cc)
ProgramStep-Inv {p = p} few (speak e t free) v = spoken few v e t free
ProgramStep-Inv {p = p} few (pause e t) v = paused v e t
ProgramStep-Inv few (flag e t) v =
    moved v (System.flag e) refl (λ h. t) (λ h. let o = v.over h in cc)
ProgramStep-Inv few (signal e free) v =
    moved v (System.signal e free) refl (λ h. v.past (ap is_past e)) (λ h. let o = v.over h in cc)
ProgramStep-Inv few (join e e') v =
    moved v (System.join e e') refl (λ h. v.past (ap is_past e)) (λ h. refl)
ProgramStep-Inv {p = p} few (stop e n) v = record {
  reach = v.reach;
  kept = v.kept;
  fit = v.fit;
  past = v.past;
  calls = sym (ap₂ (λ b todo. settle b todo p.condwait) n (v.past (ap is_past e))) ∙ v.calls;
  over = λ h. e;
}

pub Runs-Inv :
    {now : Timespec} {actions : List Action} {p : Program}
    → length (messages actions) ≤ 2048
    → Fit actions
    → Runs (begin now actions) p
    → Inv now actions p
Runs-Inv few fit here = begin-Inv _ _ fit
Runs-Inv few fit (next r st) = ProgramStep-Inv few st (Runs-Inv few fit r)
