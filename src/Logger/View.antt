-- ===== src/Logger/View.antt =====
-- The queue up to its representation: started rings, where those with the same messages are equal.
use mathlib.Core.Path.{ap₂}
use mathlib.Core.Bool.{false≢true}
use slogger.Base.{Bool, true, false, [], ◌∷◌, refl, ◌∙◌, sym, ◌≡◌, List, ap}
use slogger.Logger.{message, QueueData, Queue}
use slogger.Logger.Trace.{
  receives, waits, takes, done, sections, action, actions, sections_refines, Section, Answer,
}
use mathlib.Core.Quot
use mathlib.Core.Quot.{Quot, Quot-set}
use slogger.Logger.Represents.{Represents}
use slogger.Logger.Channel.{Channel}
use slogger.Logger.Refine.{channel}

-- A started queue with its messages.
pub record Started : Type 0 where
  pub queue : Queue
  pub messages : List QueueData
  pub represents : Represents queue messages

abbrev pub channel_of : Started → Channel
channel_of r = channel r.queue r.messages

abbrev pub SameMessages : Started → Started → Type 0
SameMessages r r' = channel_of r ≡ channel_of r'

abbrev pub View : Type 0
View = Quot SameMessages

pub Channel-set : IsSet Channel
Channel-set = hlevel

pub Answer-set : IsSet Answer
Answer-set = hlevel

-- The state of the abstract channel that a view stands for.
abbrev pub channel_view : View → Channel
channel_view = Quot.lift Channel-set channel_of (λ r r' h. h)

-- A view is determined by its channel: what it forgets is the place of the messages in the array
-- and the rest of the array.
pub channel_view-injective : (v w : View) → channel_view v ≡ channel_view w → v ≡ w
channel_view-injective =
    Quot.ind (λ v f g i w h. Quot-set v w (f w h) (g w h) i)
      (λ r. Quot.ind (λ w f g i h. Quot-set (Quot.mk r) w (f h) (g h) i) (λ r' h. Quot.sound h))

-- Behind these started queues every sequence of critical sections gets the same answers.
abbrev pub Indistinguishable : Started → Started → Type 0
Indistinguishable r r' = (ss : List Section) → sections ss r.queue ≡ sections ss r'.queue

abbrev head_or : Answer → List Answer → Answer
head_or a [] = a
head_or a (b ∷ bs) = b

abbrev tail : List Answer → List Answer
tail [] = []
tail (b ∷ bs) = bs

abbrev taken_or : QueueData → Answer → QueueData
taken_or d (takes (message x)) = x
taken_or d _ = d

abbrev is_waits : Answer → Bool
is_waits waits = true
is_waits _ = false

abbrev has_message : Answer → Bool
has_message (takes (message x)) = true
has_message _ = false

-- What a reader sees of a channel first.
reads_first :
    (c c' : Channel)
    → ((ss : List Section) → actions ss c ≡ actions ss c')
    → (action receives c).0 ≡ (action receives c').0
unfolding actions
reads_first c c' same = ap (head_or done) (same (receives ∷ []))

-- A channel is known from the answers that it gives.
pub channel-eq :
    (xs ys : List QueueData) (a b : Bool)
    → ((ss : List Section)
        → actions ss (record { items = xs; shut = a })
          ≡ actions ss (record { items = ys; shut = b }))
    → ◌≡◌ {A = Channel} (record { items = xs; shut = a }) (record { items = ys; shut = b })
unfolding actions action
channel-eq [] [] true true same = refl
channel-eq [] [] false false same = refl
channel-eq [] [] true false same = absurd (false≢true (ap is_waits (reads_first _ _ same)))
channel-eq [] [] false true same = absurd (false≢true (sym (ap is_waits (reads_first _ _ same))))
channel-eq [] (y ∷ ys) true b same = absurd (false≢true (ap has_message (reads_first _ _ same)))
channel-eq [] (y ∷ ys) false b same = absurd (false≢true (ap has_message (reads_first _ _ same)))
channel-eq (x ∷ xs) [] a true same =
    absurd (false≢true (sym (ap has_message (reads_first _ _ same))))
channel-eq (x ∷ xs) [] a false same =
    absurd (false≢true (sym (ap has_message (reads_first _ _ same))))
channel-eq (x ∷ xs) (y ∷ ys) a b same =
    let first : x ≡ y = ap (taken_or x) (reads_first _ _ same) in
    let others = channel-eq xs ys a b (λ ss. ap tail (same (receives ∷ ss))) in
    ap₂ (λ d (c : Channel). record c { items = d ∷ c.items }) first others

-- Two started rings stand for the same view exactly when no sequence of critical sections, of
-- `enqueue`, of `dequeue` and of the assignment to `shutdown`, tells them apart by its answers.
pub view-Indistinguishable :
    (r r' : Started)
    → (◌≡◌ {A = View} (Quot.mk r) (Quot.mk r') → Indistinguishable r r')
      × (Indistinguishable r r' → ◌≡◌ {A = View} (Quot.mk r) (Quot.mk r'))
view-Indistinguishable r r' = (
  λ e ss.
      sections_refines ss r.represents
      ∙ (ap (λ v. actions ss (channel_view v)) e ∙ sym (sections_refines ss r'.represents)),
  λ same. Quot.sound (
      channel-eq r.messages r'.messages r.queue.shutdown r'.queue.shutdown (λ ss.
        sym (sections_refines ss r.represents) ∙ (same ss ∙ sections_refines ss r'.represents))),
)
