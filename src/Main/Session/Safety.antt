-- ===== src/Main/Session/Safety.antt =====
-- What the logger part of `main` comes to.
use slogger.Common.{log_message, adbshell, Line, info, file_line, store_size}
use slogger.Common.Route.{IsPlain, strlen-length, log_message-file}
use slogger.Memory.{Text}
use slogger.Logger.System.{file_text, LoggerPc, failed, ended, joined, System, Reach}
use slogger.Main.Session.{
  log_record, Action, Program, Runs, begin, script, main_thread, int_handler,
}
use slogger.Base.{
  take, ◌≤◌, ◌<◌, ◌≡◌, refl, ◌≢◌, true, false, ℕ, pos, none, List, [], ◌∷◌, ◌++◌, arith, length,
  append-nil, ◌∙◌, sym, ap,
}
use mathlib.Core.Path.{subst}
use slogger.Logger.Invariant.{Awake}
use slogger.Logger.Preserve.{Reach-Inv}
use slogger.Logger.Safety.{Reach-nothing_lost}
use slogger.Condwait.{
  Timespec, Condwait, back, undefined, extend, and_then, condwait_int, condwait_wait, condwait_stop,
}
use slogger.Condwait.Lock.{
  condwait_wait-back, condwait_stop-back, condwait_int_lem, condwait_signal-undefined,
}
use slogger.Main.Session.Invariant.{messages, settle, Fit}
use slogger.Main.Session.Preserve.{Runs-Inv}

joined-ended : {s : System} → Reach s → s.phase ≡ joined → s.logger ≢ failed → s.logger ≡ ended
joined-ended {s} r e fine =
    let (xs, v) = Reach-Inv r in ends s.logger (subst (λ ph. Awake ph s.logger) e v.awake) fine
  where
    ends : (pc : LoggerPc) → Awake joined pc → pc ≢ failed → pc ≡ ended
    ends pc a f = ground arith

-- In every state of a program that starts and stops the logger as `main` does, and in between
-- calls `condwait.wait` and, at most 2048 times, `slog_message`, if the lines fit the buffer and
-- every `malloc` succeeds: the accepted messages and those of the calls to come are together the
-- messages of all its calls, in order: no call of `slog_message` is refused, however slow the
-- logging thread is.
pub Runs-accepted :
    (now : Timespec) {actions : List Action} {p : Program}
    → length (messages actions) ≤ 2048
    → Fit actions
    → Runs (begin now actions) p
    → p.system.accepted ++ messages p.todo ≡ messages actions
Runs-accepted now few fit r = (Runs-Inv few fit r).kept

pub Runs-written :
    (now : Timespec) {actions : List Action} {p : Program}
    → length (messages actions) ≤ 2048
    → Fit actions
    → Runs (begin now actions) p
    → p.system.phase ≡ joined
    → p.system.logger ≢ failed
    → p.system.written ≡ messages actions
Runs-written now {p = p} few fit r e fine =
    let v = Runs-Inv few fit r in
    let all = Reach-nothing_lost v.reach (joined-ended v.reach e fine) in
    let none_left : p.todo ≡ [] = v.past (rw e refl) in
    all
    ∙ (sym (append-nil p.system.accepted)
        ∙ (sym (ap (λ todo. p.system.accepted ++ messages todo) none_left) ∙ v.kept))

-- The two calls on the condition variable that nobody else makes.
waits_lem :
    (now : Timespec) (result : ℕ)
    → and_then
        (condwait_wait main_thread result (pos 5) (pos 10) (condwait_int now))
        (condwait_stop main_thread)
      ≡ back 0 (record { holder = none; alive = false; timeout = extend now (pos 5) (pos 10) })
waits_lem now result =
    rw
      (
        condwait_int_lem now,
        condwait_wait-back main_thread result (pos 5) (pos 10)
            (record { holder = none; alive = true; timeout = now }) refl refl,
      )
      (condwait_stop-back main_thread
        (record { holder = none; alive = true; timeout = extend now (pos 5) (pos 10) }) refl)

-- A line without a zero byte that fits the buffer of `slog_message`.
abbrev pub Loggable : Line → Type 0
Loggable x = IsPlain (file_line info x) × (length (file_line info x) < store_size)

-- What `log_message` would write to its file.
abbrev pub logged : Line → Text
logged x = (log_message adbshell (pos 2) (pos 2) true x).1

take-length : (t : Text) → take (length t) t ≡ t
take-length [] = refl
take-length (c ∷ t) = ap (λ u. c ∷ u) (take-length t)

log_record-text : (x : Line) → Loggable x → take (log_record x).size (log_record x).str ≡ logged x
log_record-text x (plain, short) =
    ap (λ n. take n (file_line info x)) (strlen-length (file_line info x) plain)
    ∙ (take-length (file_line info x) ∙ sym (log_message-file adbshell (pos 2) (pos 2) x refl))

three_lines :
    (x y z : Line)
    → Loggable x
    → Loggable y
    → Loggable z
    → file_text (log_record x ∷ log_record y ∷ log_record z ∷ [])
      ≡ logged x ++ (logged y ++ logged z)
three_lines x y z hx hy hz =
    rw (log_record-text x hx, log_record-text y hy, log_record-text z hz, append-nil) refl

-- The part of `main` on the logger, in every order of its steps and those of the logging thread:
-- if the three lines that it logs have no zero byte and fit the buffer of `slog_message`, every
-- `malloc` succeeds, and the file could be opened, then at its end the condition variable is
-- destroyed with the mutex free and the deadline extended once by 5 seconds and 10 milliseconds,
-- and the bytes of the file are exactly the three lines, in order, as `log_message` would write
-- them.
pub session_lem :
    {p : Program} (now : Timespec) (x y z : Line) (result : ℕ)
    → Loggable x
    → Loggable y
    → Loggable z
    → Runs (begin now (script x y z result)) p
    → p.stopped ≡ true
    → p.system.logger ≢ failed
    → (p.condwait
        ≡ back 0 (record { holder = none; alive = false; timeout = extend now (pos 5) (pos 10) }))
      × (file_text p.system.written ≡ logged x ++ (logged y ++ logged z))
session_lem {p} now x y z result hx hy hz r e fine =
    let fit : Fit (script x y z result) =
      (refl, refl, hx.1, (refl, refl, hy.1, (refl, refl, hz.1, tt))) in
    let v = Runs-Inv (omega arith) fit r in
    (
      ap (λ b. settle b p.todo p.condwait) (sym e) ∙ (v.calls ∙ waits_lem now result),
      ap file_text (Runs-written now (omega arith) fit r (v.over e) fine)
          ∙ three_lines x y z hx hy hz,
    )

pub int_handler-undefined : (th : Condwait) → int_handler th ≡ undefined
unfolding int_handler
int_handler-undefined th = condwait_signal-undefined main_thread th
