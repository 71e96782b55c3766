-- ===== src/Playlist/Calls/First.antt =====
-- The first entry with a path, and the first such path.
use slogger.Base.{◌≡◌, refl, none, some, List, [], ◌∷◌, ◌++◌, ◌⊎◌, inl, inr, Bool-cases, ap}
use slogger.Memory.{Text, Store}
use slogger.Playlist.FileName.{text_eq}
use slogger.Playlist.Entries.{Entry}
use slogger.Playlist.Display.{text_at, paths}
use slogger.Playlist.Find.{find}
use slogger.Playlist.Calls.{first_at}

pub record Found (t : Store Text) (path : Text) (xs : List Entry) : Type 0 where
  pub before : List Entry
  pub node : Entry
  pub behind : List Entry
  pub whole : xs ≡ before ++ (node ∷ behind)
  pub found : find t path xs ≡ some node.addr
  pub split :
      first_at path (paths t xs)
      ≡ some (record { before = paths t before; at = text_at t node.path; behind = paths t behind })

pub first-cases :
    (t : Store Text) (path : Text) (xs : List Entry)
    → ((find t path xs ≡ none) × (first_at path (paths t xs) ≡ none)) ⊎ Found t path xs
first-cases t path [] = inl (refl, refl)
first-cases t path (x ∷ xs) = elim (Bool-cases (text_eq (text_at t x.path) path)) [
  | inl same ↦ inr (record {
    before = [];
    node = x;
    behind = xs;
    whole = refl;
    found = rw same refl;
    split = rw same refl;
  })
  | inr other ↦ elim (first-cases t path xs) [
    | inl (a, b) ↦ inl (rw other a, rw (other, b) refl)
    | inr f ↦ inr (record {
      before = x ∷ f.before;
      node = f.node;
      behind = f.behind;
      whole = ap (λ l. x ∷ l) f.whole;
      found = rw other f.found;
      split = rw (other, f.split) refl;
    })
  ]
]
