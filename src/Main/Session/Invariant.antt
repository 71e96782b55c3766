-- ===== src/Main/Session/Invariant.antt =====
-- What holds in every run of the logger part of `main`.
use slogger.Base.{◌<◌, ◌≡◌, Bool, true, false, List, [], ◌∷◌, ◌++◌, length, pos}
use slogger.Logger.{QueueData}
use slogger.Logger.System.{Phase, flagged, signalled, joined, Reach}
use slogger.Common.{info, file_line, store_size}
use slogger.Condwait.{Timespec, Call, back, and_then, condwait_int, condwait_wait, condwait_stop}
use slogger.Main.Session.{Action, say, rest, Program, log_record, main_thread}

-- The messages of the calls that are still to come.
abbrev pub messages : List Action → List QueueData
messages [] = []
messages (say store_ok record_ok x ∷ actions) = log_record x ∷ messages actions
messages (rest seconds ms result ∷ actions) = messages actions

-- What they make of the condition variable.
abbrev pub waits : List Action → Call → Call
waits [] c = c
waits (say store_ok record_ok x ∷ actions) c = waits actions c
waits (rest seconds ms result ∷ actions) c =
    waits actions (and_then c (condwait_wait main_thread result (pos seconds) (pos ms)))

-- The same with `condwait.stop`, unless it has already been called.
abbrev pub settle : (stopped : Bool) → List Action → Call → Call
settle true actions c = c
settle false actions c = and_then (waits actions c) (condwait_stop main_thread)

-- Every `malloc` of `slog_message` succeeds, and the line fits its buffer.
abbrev pub Fit : List Action → Type 0
Fit [] = Unit {0}
Fit (say store_ok record_ok x ∷ actions) =
    (store_ok ≡ true) × (record_ok ≡ true) × (length (file_line info x) < store_size) × Fit actions
Fit (rest seconds ms result ∷ actions) = Fit actions

abbrev pub is_past : Phase → Bool
is_past flagged = true
is_past signalled = true
is_past joined = true
is_past _ = false

pub record Inv (now : Timespec) (actions : List Action) (p : Program) : Type 0 where
  pub reach : Reach p.system
  pub kept : p.system.accepted ++ messages p.todo ≡ messages actions
  pub fit : Fit p.todo
  pub past : is_past p.system.phase ≡ true → p.todo ≡ []
  pub calls : settle p.stopped p.todo p.condwait ≡ settle false actions (back 0 (condwait_int now))
  pub over : p.stopped ≡ true → p.system.phase ≡ joined
