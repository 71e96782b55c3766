-- ===== src/Logger/Represents.antt =====
-- The list of messages that a ring stands for.
use mathlib.Core.Path.{ap}
use slogger.Base.{
  ℕ, suc, ◌+◌, ◌-◌, ◌%◌, ◌≤◌, ◌<◌, ◌≡◌, ◌≢◌, Option, some, List, [], ◌∷◌, ◌++◌, arith, length,
  get_elem?, set, get_elem?-set_self, get_elem?-set_ne, ◌∙◌, sym,
}
use native.Mathlib.Nat.{mod-add-mod, mod-eq_of_lt, mod-eq-sub-mod, add-zero}
use native.Mathlib.Decide.{dec_lt}
use slogger.Logger.{QueueData, Queue, max_capacity}

-- The slots from `i` on, going round at `cap`, hold `xs` in order.
abbrev pub Holds : List (Option QueueData) → ℕ → ℕ → List QueueData → Type 0
Holds slots cap i [] = Unit {0}
Holds slots cap i (x ∷ xs) =
    (get_elem? slots i ≡ some (some x)) × Holds slots cap ((i + 1) % cap) xs

-- A started queue with the messages `xs`, oldest first.
pub record Represents (q : Queue) (xs : List QueueData) : Type 0 where
  pub capacity : q.capacity ≡ max_capacity
  pub array : length q.slots ≡ q.capacity
  pub front : q.front < q.capacity
  pub size : q.size ≡ length xs
  pub fits : length xs ≤ q.capacity
  pub window : Holds q.slots q.capacity q.front xs

-- Fewer than `cap` steps round the ring do not come back.
round-ne : (cap i k : ℕ) → i < cap → suc k < cap → (i + suc k) % cap ≢ i
round-ne cap i k hi hk = elim (dec_lt (i + suc k) cap) [
  | yes p ↦ omega (arith, mod-eq_of_lt p)
  | no p ↦ omega (
    arith,
    mod-eq-sub-mod {n = i + suc k} {m = cap} (omega arith),
    mod-eq_of_lt {n = i + suc k - cap} {m = cap} (omega arith),
  )
]

next_round : (cap i n : ℕ) → i < cap → ((i + 1) % cap + n) % cap ≡ (i + suc n) % cap
next_round cap i n h = rw mod-add-mod (ap (λ k. k % cap) (omega arith))

-- A write just behind the window extends it.
pub Holds-set :
    (slots : List (Option QueueData)) (cap i j : ℕ) (xs : List QueueData) (d : QueueData)
    → length slots ≡ cap
    → i < cap
    → length xs < cap
    → j ≡ (i + length xs) % cap
    → Holds slots cap i xs
    → Holds (set slots j (some d)) cap i (xs ++ (d ∷ []))
Holds-set slots cap i j [] d len hi hx e w =
    let here : j ≡ i = e ∙ rw add-zero (mod-eq_of_lt hi) in
    (rw here (get_elem?-set_self slots i (some d) (omega arith)), tt)
Holds-set slots cap i j (x ∷ xs) d len hi hx e (w, ws) = (
  get_elem?-set_ne slots j i (some d) (rw e (round-ne cap i (length xs) hi hx)) ∙ w,
  Holds-set slots cap ((i + 1) % cap) j xs d len (omega arith) (omega arith)
      (e ∙ sym (next_round cap i (length xs) hi)) ws,
)
