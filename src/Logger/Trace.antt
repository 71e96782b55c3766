-- ===== src/Logger/Trace.antt =====
-- Sequences of critical sections of the queue, against the same sequence on the channel.
use slogger.Base.{◌≡◌, refl, true, List, [], ◌∷◌, Bool-cases, inl, inr, if◌then◌else◌, ap, ◌∙◌, sym}
use mathlib.Core.Path.{ap₂}
use slogger.Logger.{
  QueueData, Queue, Pushed, Taken, enqueue_locked, must_wait, dequeue_locked, close,
}
use slogger.Logger.Represents.{Represents}
use slogger.Logger.Channel.{Channel, push, blocks, first, rest}
use slogger.Logger.Refine.{channel, enqueue_refines, dequeue_refines}

-- `enqueue`, a turn of `dequeue`, and the assignment of `slog_stop`.
pub data Section : Type 0 where
  sends : QueueData → Section
  receives : Section
  shuts : Section

pub data Answer : Type 0 where
  answers : Pushed → Answer
  waits : Answer
  takes : Taken → Answer
  done : Answer

pub section : Section → Queue → Answer × Queue
section (sends d) q = let (p, q') = enqueue_locked d q in (answers p, q')
section receives q =
    if must_wait q then (waits, q) else (let (t, q') = dequeue_locked q in (takes t, q'))
section shuts q = (done, close q)

pub sections : List Section → Queue → List Answer
unfolding section
sections [] q = []
sections (s ∷ ss) q = let (a, q') = section s q in a ∷ sections ss q'

-- The same on the channel.
unfoldable pub action : Section → Channel → Answer × Channel
action (sends d) c = let (p, c') = push d c in (answers p, c')
action receives c =
    if blocks c.items c.shut
    then (waits, c)
    else (takes (first c.items), record c { items = rest c.items })
action shuts c = (done, record c { shut = true })

unfoldable pub actions : List Section → Channel → List Answer
unfolding action
actions [] c = []
actions (s ∷ ss) c = let (a, c') = action s c in a ∷ actions ss c'

-- What one critical section and the action of the channel have in common.
abbrev pub Agree : Answer × Queue → Answer × Channel → Type 0
Agree (a, q) (b, c) = (a ≡ b) × Represents q c.items × (q.shutdown ≡ c.shut)

pub section_refines :
    (s : Section) {q : Queue} {xs : List QueueData}
    → Represents q xs
    → Agree (section s q) (action s (channel q xs))
unfolding section action close
section_refines (sends d) r = let (e, r', o) = enqueue_refines d r in (ap answers e, r', o)
section_refines receives {q} {xs} r =
    let (same, go) = dequeue_refines xs r in
    elim (Bool-cases (must_wait q)) [
      | inl w ↦ rw (w, sym same ∙ w) (refl, r, refl)
      | inr w ↦ let (e, r', o) = go w in rw (w, sym same ∙ w) (ap takes e, r', o)
    ]
section_refines shuts r = (
  refl,
  record {
    capacity = r.capacity;
    array = r.array;
    front = r.front;
    size = r.size;
    fits = r.fits;
    window = r.window;
  },
  refl,
)

-- On a ring that represents a list of messages every sequence of critical sections of the queue,
-- of `enqueue`, of `dequeue` and of the assignment to `shutdown`, gets the same answers, in order,
-- as the same sequence on the bounded channel.
pub sections_refines :
    (ss : List Section) {q : Queue} {xs : List QueueData}
    → Represents q xs
    → sections ss q ≡ actions ss (channel q xs)
unfolding sections actions
sections_refines [] r = refl
sections_refines (s ∷ ss) {q} {xs} r =
    let (e, r', o) = section_refines s r in
    let c = (action s (channel q xs)).1 in
    ap₂ (λ a bs. a ∷ bs) e
      (sections_refines ss r' ∙ ap (λ b. actions ss (record { items = c.items; shut = b })) o)
