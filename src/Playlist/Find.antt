-- ===== src/Playlist/Find.antt =====
-- `removeplaylist` and `swapplaylist`: the search for the first entry with a path.
use slogger.Base.{
  ℕ, zero, suc, ◌≡◌, ◌<◌, refl, Bool, false, Option, none, some, List, [], ◌∷◌, arith,
  if◌then◌else◌, length, ==-ne, inl, inr, Bool-cases,
}
use slogger.Memory.{Ptr, null, Text, Store, Memory, done, Run}
use slogger.Memory.Commands
use slogger.Memory.Update.{NoDup}
use slogger.Playlist.{Removed, remove_node, remove_path, swap_node, swap_path}
use slogger.Playlist.FileName.{text_eq}
use slogger.Playlist.Entries.{Entry, IsPlaylist, addrs, strings, head_or, Seg, Allocated}
use slogger.Playlist.Display.{text_at, text_at-some}

-- The node of the first entry with a path.
abbrev pub find : Store Text → Text → List Entry → Option Ptr
find t path [] = none
find t path (x ∷ xs) = if text_eq (text_at t x.path) path then some x.addr else find t path xs

module _ (m : Memory) (path : Text) (list page : Ptr) where
  -- What `removeplaylist` does with the node that it finds.
  abbrev pub remove_found : Option Ptr → Run Removed
  remove_found none = done (record { done = false; list = list; page = page }) m
  remove_found (some p) = remove_node list p page m

  remove_path-from :
      (k : ℕ) (prv : Ptr) (xs : List Entry)
      → Seg m.node prv xs null
      → NoDup (addrs xs)
      → Allocated m.text (strings xs)
      → length xs < k
      → remove_path k list page path (head_or xs null) m ≡ remove_found (find m.text path xs)
  unfolding remove_path
  remove_path-from zero prv xs s d o lt = absurd (omega arith)
  remove_path-from (suc k) prv [] s d o lt = refl
  remove_path-from (suc k) prv (x ∷ xs) (e, s) d (here, (here', o)) lt =
      rw
        (
          ==-ne x.addr null d.0,
          Commands.load-some m x.addr e,
          Commands.read-some m x.path (text_at-some m.text x.path here),
        )
        (elim (Bool-cases (text_eq (text_at m.text x.path) path)) [
          | inl same ↦ rw same refl
          | inr other ↦ rw other (remove_path-from k x.addr xs s d.2 o (omega arith))
        ])

module _ (m : Memory) (path : Text) (next : Bool) (sel : Ptr) where
  -- What `swapplaylist` does with the node that it finds.
  abbrev pub swap_found : Option Ptr → Run (Bool × Ptr)
  swap_found none = done (false, sel) m
  swap_found (some p) = swap_node p next sel m

  swap_path-from :
      (k : ℕ) (prv : Ptr) (xs : List Entry)
      → Seg m.node prv xs null
      → NoDup (addrs xs)
      → Allocated m.text (strings xs)
      → length xs < k
      → swap_path k (head_or xs null) path next sel m ≡ swap_found (find m.text path xs)
  unfolding swap_path
  swap_path-from zero prv xs s d o lt = absurd (omega arith)
  swap_path-from (suc k) prv [] s d o lt = refl
  swap_path-from (suc k) prv (x ∷ xs) (e, s) d (here, (here', o)) lt =
      rw
        (
          ==-ne x.addr null d.0,
          Commands.load-some m x.addr e,
          Commands.read-some m x.path (text_at-some m.text x.path here),
        )
        (elim (Bool-cases (text_eq (text_at m.text x.path) path)) [
          | inl same ↦ rw same refl
          | inr other ↦ rw other (swap_path-from k x.addr xs s d.2 o (omega arith))
        ])

module _ {m : Memory} {head : Ptr} (k : ℕ) (xs : List Entry) (path : Text)
    (is : IsPlaylist m head xs) (lt : length xs < k) where
  -- On a play list, with fuel above its length, `removeplaylist` is `removeplayNode` at the first
  -- entry whose path is the given one, and without such an entry returns false with nothing
  -- changed.
  pub remove_path_lem :
      (list page : Ptr)
      → remove_path k list page path head m ≡ remove_found m path list page (find m.text path xs)
  remove_path_lem list page =
      rw is.first (remove_path-from m path list page k null xs is.seg is.nodes is.owned lt)

  -- On a play list, with fuel above its length, `swapplaylist` is `swapplayNode` at the first
  -- entry whose path is the given one, and without such an entry returns false with nothing
  -- changed.
  pub swap_path_lem :
      (next : Bool) (sel : Ptr)
      → swap_path k head path next sel m ≡ swap_found m path next sel (find m.text path xs)
  swap_path_lem next sel =
      rw is.first (swap_path-from m path next sel k null xs is.seg is.nodes is.owned lt)
