-- ===== src/Logger/Channel.antt =====
-- What the queue promises its callers: a bounded first-in-first-out channel that can be closed.
use slogger.Base.{Bool, true, false, ◌||◌, List, [], ◌∷◌, ◌++◌, ◌==◌, if◌then◌else◌, length}
use slogger.Logger.{QueueData, Pushed, stored, rejected, Taken, closed, message, max_capacity}

pub record Channel : Type 0 where
  pub items : List QueueData
  pub shut : Bool

unfoldable pub push : QueueData → Channel → Pushed × Channel
push d c =
    if length c.items == max_capacity || c.shut
    then (rejected, c)
    else (stored, record c { items = c.items ++ (d ∷ []) })

-- A reader waits on an open channel that is empty.
abbrev pub blocks : List QueueData → Bool → Bool
blocks [] false = true
blocks _ _ = false

-- What a reader that does not wait receives.
abbrev pub first : List QueueData → Taken
first [] = closed
first (x ∷ _) = message x

abbrev pub rest : List QueueData → List QueueData
rest [] = []
rest (_ ∷ xs) = xs
