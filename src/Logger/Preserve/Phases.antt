-- ===== src/Logger/Preserve/Phases.antt =====
-- What a phase says of the queue, and of an `enqueue` or a `dequeue` that happens in it.
use slogger.Base.{◌≡◌, refl, Bool, true, false, List, arith, ◌∙◌}
use slogger.Logger.{QueueData, Queue, must_wait, set_capacity}
use slogger.Logger.Represents.{Represents}
use slogger.Logger.Invariant.{InPhase, Awake}
use slogger.Logger.System.{leaving, Phase, created, sized, joined}

abbrev pub started : Phase → Bool
started created = false
started sized = false
started joined = false
started _ = true

pub started-Represents :
    (p : Phase) {q : Queue} {xs : List QueueData}
    → started p ≡ true
    → InPhase p q xs
    → Represents q xs
started-Represents created h i = cc
started-Represents sized h i = cc
started-Represents joined h i = cc
started-Represents _ h i = i.1

pub InPhase-change :
    (p : Phase) (q q' : Queue) (xs ys : List QueueData)
    → started p ≡ true
    → InPhase p q xs
    → q'.shutdown ≡ q.shutdown
    → Represents q' ys
    → InPhase p q' ys
InPhase-change created q q' xs ys h i e r = cc
InPhase-change sized q q' xs ys h i e r = cc
InPhase-change joined q q' xs ys h i e r = cc
InPhase-change _ q q' xs ys h i e r = (e ∙ i.0, r)

-- Behind its loop the logging thread meets a started queue that has not been freed.
pub leaving-started :
    (p : Phase) (q : Queue) (xs : List QueueData)
    → InPhase p q xs
    → Awake p leaving
    → must_wait q ≡ false
    → started p ≡ true
unfolding must_wait set_capacity
leaving-started created q xs i w m = ground arith
leaving-started sized q xs i w m = ground arith
leaving-started joined q xs i w m = absurd w
leaving-started _ q xs i w m = refl
