-- ===== src/Playlist/Calls/Undefined.antt =====
-- Calls that are undefined on the paths are undefined on the heap.
use mathlib.Core.Bool.{false≢true}
use slogger.Base.{
  ◌-◌, ℕ, suc, ◌<◌, ◌≡◌, refl, Bool, true, false, none, some, List, [], ◌∷◌, ◌++◌, arith, ◌==◌,
  length, inl, inr, Bool-cases, ap,
}
use slogger.Memory.{Ptr, Cmd, pure, chain, null, Text, Memory, crash}
use slogger.Playlist.{Removed, remove_node, add_front, Blocks}
use slogger.Playlist.Calls.{
  Reply, success, Call, append, prepend, remove, swap, display, turn_page, show_page, Handles, Mark,
  perform, on_paths, removed, first_at,
}
use mathlib.Core.Path.{subst}
use slogger.Memory.Update.{has, NoDup}
use slogger.Memory.Keeps.{Spot, node_at}
use slogger.Playlist.Entries.{Entry, IsPlaylist, addrs}
use slogger.Playlist.Display.{paths}
use slogger.Playlist.Remove.{remove_node-sole}
use slogger.Playlist.Prepend.{add_front-empty}
use slogger.Playlist.Find.{remove_path_lem}
use slogger.Playlist.Owned.{Owns}
use slogger.Playlist.Calls.First.{Found, first-cases}
use slogger.Playlist.Calls.Fresh.{Unused, kept_front-IsFresh}
use slogger.Playlist.Calls.Agreement.{FreshCall, view}

-- The calls on the list itself, not on its pages.
abbrev pub Plain : Call → Type 0
Plain (turn_page next) = ⊥
Plain show_page = ⊥
Plain _ = Unit {0}

null-new : (ps : List ℕ) → NoDup ps → has null ps ≡ false
null-new [] d = refl
null-new (p ∷ ps) d = ground (arith, null-new ps d.2)

-- Nothing is allocated at `NULL`.
pub nothing :
    (o : Spot → Bool) (m : Memory) {head : ℕ} (xs : List Entry)
    → IsPlaylist m head xs
    → Owns o m xs
    → o (node_at null) ≡ false
    → m.node null ≡ none
nothing o m xs is owns free =
    owns (record { spot = node_at null; out = null-new (addrs xs) is.nodes; other = free })

pub some-none : {A : Type 0} {a : A} → some a ≡ none → ⊥
some-none e = false≢true (ap (λ o. elim o [ none ↦ true | some _ ↦ false ]) e)

abbrev answer : Handles → Removed → Cmd (Reply × Handles)
answer h r = pure (success r.done, record h { list = r.list; page = r.page })

sole :
    (head page : Ptr) (m : Memory) (bs : List Entry) (x : Entry) (cs : List Entry)
    → IsPlaylist m head (bs ++ (x ∷ cs))
    → m.node null ≡ none
    → (length (paths m.text bs ++ paths m.text cs) == 0) ≡ true
    → remove_node head x.addr page m ≡ crash
sole head page m [] x [] is free z = remove_node-sole x page is free
sole head page m [] x (c ∷ cs) is free z = absurd (ground arith)
sole head page m (b ∷ bs) x cs is free z = absurd (ground arith)

module _ (k : ℕ) (h : Handles) (mark : Mark) {m : Memory} where
  prepend-undefined :
      (b : Blocks) (path : Text) (xs : List Entry)
      → IsPlaylist m h.list xs
      → m.node null ≡ none
      → length xs < k
      → Unused b m
      → on_paths (prepend b path) (view m.text xs mark) ≡ none
      → perform k (prepend b path) h m ≡ crash
  unfolding on_paths perform
  prepend-undefined b path [] is free lt u e =
      let gone =
        subst (λ j. add_front j b h.list path m ≡ crash) {x = suc (k - 1)} {y = k} (omega arith)
          (add_front-empty (k - 1) b path is (kept_front-IsFresh [] is u) free) in
      rw gone refl
  prepend-undefined b path (x ∷ xs) is free lt u e = absurd (some-none e)

  removal-undefined :
      (path : Text) (xs : List Entry)
      → IsPlaylist m h.list xs
      → m.node null ≡ none
      → length xs < k
      → Found m.text path xs
      → removed (view m.text xs mark) (first_at path (paths m.text xs)) ≡ none
      → perform k (remove path) h m ≡ crash
  unfolding perform
  removal-undefined path xs is free lt f e =
      let left = paths m.text f.before ++ paths m.text f.behind in
      let whole = subst (IsPlaylist m h.list) f.whole is in
      elim (Bool-cases (length left == 0)) [
        | inr n ↦ absurd (some-none (rw (f.split, n) at e))
        | inl z ↦
            rw (remove_path_lem k xs path is lt h.list h.page, f.found)
              (ap (λ r. chain r (answer h))
                (sole h.list h.page m f.before f.node f.behind whole free z))
      ]

  remove-undefined :
      (path : Text) (xs : List Entry)
      → IsPlaylist m h.list xs
      → m.node null ≡ none
      → length xs < k
      → on_paths (remove path) (view m.text xs mark) ≡ none
      → perform k (remove path) h m ≡ crash
  unfolding on_paths
  remove-undefined path xs is free lt e = elim (first-cases m.text path xs) [
    | inl (a, b) ↦ absurd (some-none (rw b at e))
    | inr f ↦ removal-undefined path xs is free lt f e
  ]

  pub perform-undefined :
      (c : Call) (xs : List Entry)
      → IsPlaylist m h.list xs
      → m.node null ≡ none
      → length xs < k
      → FreshCall c m
      → Plain c
      → on_paths c (view m.text xs mark) ≡ none
      → perform k c h m ≡ crash
  unfolding on_paths
  perform-undefined (append b path) xs is free lt u plain e = absurd (some-none e)
  perform-undefined (prepend b path) xs is free lt u plain e =
      prepend-undefined b path xs is free lt u e
  perform-undefined (remove path) xs is free lt u plain e = remove-undefined path xs is free lt e
  perform-undefined (swap next path) xs is free lt u plain e = absurd (some-none e)
  perform-undefined display xs is free lt u plain e = absurd (some-none e)
  perform-undefined (turn_page next) xs is free lt u plain e = absurd plain
  perform-undefined show_page xs is free lt u plain e = absurd plain
