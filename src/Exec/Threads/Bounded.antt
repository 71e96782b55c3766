-- ===== src/Exec/Threads/Bounded.antt =====
-- A job comes to its end when the child does.
use slogger.Exec.Threads.{
  misprinted, overrun, holding, overruns, enters, fails, log_name, RunnerPc, opening, no_log,
  testing, reading, in_read, writing, leaving, ended, crashed, StopPc, started, flagged, ready,
  closed, gave_up, joining, joined, Child, alive, dead, Job, RunnerStep, opens, cannot_open, test,
  call, reads, at_end, writes, closes, is_over, Step, runs, prints, dies, stops, interrupts,
  closes_fp, waits, joins, Reach, here, next,
}
use slogger.Base.{
  Option, none, some, ℕ, suc, ◌+◌, ◌*◌, ◌≤◌, ◌≡◌, refl, ◌⊎◌, inl, inr, Bool, true, false, List, [],
  ◌∷◌, arith, length, length-append, if◌then◌else◌, ap,
}
use slogger.Memory.{Text}

-- The steps that bring the job to a state, and those of them in which the child prints.
pub steps : {b : Bool} {s : Job} → Reach b s → ℕ
steps (here log_path logfile debug) = 0
steps (next r st) = suc (steps r)

abbrev is_print : {s t : Job} → Step s t → Bool
is_print (prints bs e) = true
is_print _ = false

pub outputs : {b : Bool} {s : Job} → Reach b s → ℕ
outputs (here log_path logfile debug) = 0
outputs (next r st) = let n = outputs r in if is_print st then suc n else n

abbrev runner_left : RunnerPc → ℕ
runner_left opening = 6
runner_left testing = 5
runner_left reading = 4
runner_left holding = 3
runner_left in_read = 2
runner_left (writing c) = 6
runner_left leaving = 1
runner_left _ = 0

abbrev stopper_left : StopPc → ℕ
stopper_left started = 5
stopper_left flagged = 4
stopper_left ready = 3
stopper_left closed = 2
stopper_left joining = 1
stopper_left _ = 0

abbrev child_left : Child → ℕ
child_left alive = 1
child_left (dead status) = 0

-- A byte in the pipe is worth the five steps in which the thread reads and writes it.
abbrev potential : Job → ℕ
potential s =
    runner_left s.runner + stopper_left s.stopper + child_left s.child + 5 * length s.pending

RunnerStep-potential :
    {s t : Job}
    → RunnerStep s t
    → (suc (potential t) ≤ potential s) × (length t.printed ≡ length s.printed)
RunnerStep-potential {s} (overruns e n) = ground arith
RunnerStep-potential {s} (opens name e n) = ground arith
RunnerStep-potential {s} (cannot_open name e n) = ground arith
RunnerStep-potential {s} (test e) = ground arith
RunnerStep-potential {s} (call e) = ground arith
RunnerStep-potential {s} (enters e) = ground arith
RunnerStep-potential {s} (fails e) = ground arith
RunnerStep-potential {s} (reads c rest e p a b) =
    let size = ap length p in (omega (arith, size, length-append c rest, ap runner_left e), refl)
RunnerStep-potential {s} (at_end status e p d) = ground arith
RunnerStep-potential {s} (writes c e) = ground arith
RunnerStep-potential {s} (closes e) = ground arith

abbrev print_of : {s t : Job} → Step s t → ℕ
print_of st = if is_print st then 1 else 0

Step-potential :
    {s t : Job} (st : Step s t)
    → potential t + 5 * length s.printed + 1 ≤ potential s + 5 * length t.printed + print_of st
Step-potential (runs r) = let (less, same) = RunnerStep-potential r in omega (arith, less, same)
Step-potential {s} (prints bs e) =
    omega (arith, length-append s.pending bs, length-append s.printed bs)
Step-potential {s} (dies status f e) = ground arith
Step-potential {s} (stops e) = ground arith
Step-potential {s} (interrupts e) = ground arith
Step-potential {s} (closes_fp e) = ground arith
Step-potential {s} (waits status e d) = ground arith
Step-potential {s} (joins e o) = ground arith

charge : (b : Bool) (n : ℕ) → (if b then suc n else n) ≡ n + (if b then 1 else 0)
charge true n = omega arith
charge false n = omega arith

steps-potential :
    {b : Bool} {s : Job} (r : Reach b s)
    → steps r + potential s ≤ 12 + 5 * length s.printed + outputs r
unfolding steps outputs
steps-potential (here log_path logfile debug) = omega arith
steps-potential (next r st) =
    omega (arith, steps-potential r, Step-potential st, charge (is_print st) (outputs r))

abbrev pub stop_over : StopPc → Bool
stop_over gave_up = true
stop_over joined = true
stop_over _ = false

-- The thread has done something undefined.
abbrev pub is_undefined : RunnerPc → Bool
is_undefined crashed = true
is_undefined overrun = true
is_undefined misprinted = true
is_undefined _ = false

-- `exec_stop` and the thread have returned, or the thread has done something undefined.
abbrev pub Over : Job → Type 0
Over s = ((stop_over s.stopper ≡ true) × (is_over s.runner ≡ true)) ⊎ (is_undefined s.runner ≡ true)

abbrev pub is_of_child : {s t : Job} → Step s t → Bool
is_of_child (prints bs e) = true
is_of_child (dies status f e) = true
is_of_child _ = false

-- The thread, or the one in `exec_stop`, can take a step.
abbrev pub CanStep : Job → Type 0
CanStep s = (t : Job) × (st : Step s t) × (is_of_child st ≡ false)

-- What is left when nothing is to be done: the job is over, or a thread can go on, or both wait for
-- the child.
abbrev pub Goes : Job → Type 0
Goes s = Over s ⊎ (CanStep s ⊎ (s.child ≡ alive))

read-Goes :
    {s : Job} (child : Child) (pending : List ℕ)
    → s.runner ≡ in_read
    → s.child ≡ child
    → s.pending ≡ pending
    → Goes s
read-Goes alive bs e c p = inr (inr c)
read-Goes (dead status) [] e c p = inr (inl (_, runs (at_end status e p c), refl))
read-Goes (dead status) (x ∷ rest) e c p =
    inr (inl (_, runs (reads (x ∷ []) rest e p (omega arith) (omega arith)), refl))

stop-Goes :
    {s : Job} (pc : StopPc) (child : Child)
    → s.stopper ≡ pc
    → s.child ≡ child
    → is_over s.runner ≡ true
    → Goes s
stop-Goes started child e c o = inr (inl (_, stops e, refl))
stop-Goes flagged child e c o = inr (inl (_, interrupts e, refl))
stop-Goes ready child e c o = inr (inl (_, closes_fp e, refl))
stop-Goes closed alive e c o = inr (inr c)
stop-Goes closed (dead status) e c o = inr (inl (_, waits status e c, refl))
stop-Goes joining child e c o = inr (inl (_, joins e o, refl))
stop-Goes gave_up child e c o = inl (inl (ap stop_over e, o))
stop-Goes joined child e c o = inl (inl (ap stop_over e, o))

open-Goes :
    {s : Job} (name : Option Text)
    → s.runner ≡ opening
    → log_name s.log_path s.logfile ≡ name
    → Goes s
open-Goes none e n = inr (inl (_, runs (overruns e n), refl))
open-Goes (some name) e n = inr (inl (_, runs (opens name e n), refl))

goes : {s : Job} (pc : RunnerPc) → s.runner ≡ pc → Goes s
goes {s} opening e = open-Goes (log_name s.log_path s.logfile) e refl
goes testing e = inr (inl (_, runs (test e), refl))
goes reading e = inr (inl (_, runs (call e), refl))
goes holding e = inr (inl (_, runs (enters e), refl))
goes {s} in_read e = read-Goes s.child s.pending e refl refl
goes (writing c) e = inr (inl (_, runs (writes c e), refl))
goes leaving e = inr (inl (_, runs (closes e), refl))
goes {s} no_log e = stop-Goes s.stopper s.child refl refl (ap is_over e)
goes {s} ended e = stop-Goes s.stopper s.child refl refl (ap is_over e)
goes crashed e = inl (inr (ap is_undefined e))
goes overrun e = inl (inr (ap is_undefined e))
goes misprinted e = inl (inr (ap is_undefined e))

-- `exec_stop` and the thread of `exec_start` come to their end once the child has: every run of
-- the child, the thread and the stop has at most 12 steps, five for each byte that the child has
-- printed and one for each time that it has printed; and in every reachable state either both have
-- returned, or the thread has done something undefined, or one of both can take a step, or the
-- child is still alive.
pub Reach-Bounded :
    {blocking : Bool} {s : Job} (r : Reach blocking s)
    → (steps r ≤ 12 + 5 * length s.printed + outputs r) × Goes s
Reach-Bounded {s = s} r = (omega (arith, steps-potential r), goes s.runner refl)
