-- ===== src/Playlist/Calls/Swaps.antt =====
-- `swapplayNode` on the paths of a play list.
use slogger.Memory.Keeps.{Later-both, Spot}
use slogger.Playlist.Owned.{Owns, exchanged-Owns, swap_node-Owns}
use slogger.Base.{Bool, ◌≡◌, refl, true, false, List, [], ◌∷◌, ◌++◌, ◌∙◌, sym, ap, append_assoc}
use slogger.Playlist.Calls.{Mark, moved_back, moved_up}
use slogger.Playlist.Calls.Marks.{Marks, Tracks, swap-Marks}
use mathlib.Core.Path.{subst}
use slogger.Memory.{Ptr, null, Text, Memory, Ensures}
use slogger.Memory.Commands
use slogger.Playlist.{swap_node}
use slogger.Playlist.Entries.{Entry, IsPlaylist, Seg-split}
use slogger.Playlist.DropLast.{last_entry, snoc-eq}
use slogger.Playlist.DropLast
use slogger.Playlist.Display.{text_at, paths}
use slogger.Playlist.Content.{paths-append, Swapped-paths}
use slogger.Playlist.Swap.{
  Swapped, exchanged, selected_next, selected_prv, swap_node-next, swap_node-prv, swap_node-last,
  swap_node-first,
}
use slogger.Playlist.Calls.Named.{Named, Named-exchanged}

-- The result of a swap is `x.0`, and the paths are `x.1` then.
abbrev pub Moves :
    (Spot → Bool) → Ptr → Ptr → Mark → Bool × List Text → Bool × Ptr → Memory → Type 0
Moves o head page mark x r m' =
    (r.0 ≡ x.0) × Tracks o m' head page (record { paths = x.1; mark = mark })

moved_up-snoc :
    (us : List Text) (u t : Text) (vs : List Text)
    → moved_up (us ++ (u ∷ [])) t vs ≡ (true, us ++ (t ∷ u ∷ vs))
moved_up-snoc [] u t vs = refl
moved_up-snoc (w ∷ []) u t vs = refl
moved_up-snoc (w ∷ w' ∷ us) u t vs = ap (λ x. (x.0, w ∷ x.1)) (moved_up-snoc (w' ∷ us) u t vs)

Swapped-Tracks :
    {m m' : Memory} {head sel : Ptr} {r : Bool × Ptr} (o : Spot → Bool) (page : Ptr) (mark : Mark)
    (xs : List Entry) (a b : Entry) (ys : List Entry)
    → Named m.text (xs ++ (a ∷ b ∷ ys))
    → Marks mark (xs ++ (a ∷ b ∷ ys)) page
    → Owns o m' (xs ++ (a ∷ b ∷ ys))
    → Swapped m head xs a b ys sel r m'
    → Moves o head page mark
        (true, paths m.text xs ++ (text_at m.text b.path ∷ text_at m.text a.path ∷ paths m.text ys))
        r
        m'
Swapped-Tracks {m} o page mark xs a b ys n at owns s = (
  s.ok,
  (
    exchanged xs a b ys,
    s.list,
    Swapped-paths s,
    subst (λ t. Named t (exchanged xs a b ys)) (sym s.texts) (Named-exchanged m.text xs a b ys n),
    swap-Marks mark xs a b ys page at,
    exchanged-Owns xs a b ys owns,
  ),
)

module _ {m : Memory} {head : Ptr} (o : Spot → Bool) (page : Ptr) (mark : Mark) (sel : Ptr) where
  pub swap_next-Moves :
      (xs : List Entry) (a : Entry) (ys : List Entry)
      → IsPlaylist m head (xs ++ (a ∷ ys))
      → Named m.text (xs ++ (a ∷ ys))
      → Marks mark (xs ++ (a ∷ ys)) page
      → Owns o m (xs ++ (a ∷ ys))
      → Ensures
          (Moves o head page mark
            (moved_back (paths m.text xs) (text_at m.text a.path) (paths m.text ys)))
          (swap_node a.addr true sel m)
  swap_next-Moves xs a [] is n at owns =
      rw (swap_node-last m a.addr sel (Seg-split m.node null xs (a ∷ []) null is.seg).1.0)
        (refl, (xs ++ (a ∷ []), is, paths-append m.text xs (a ∷ []), n, at, owns))
  swap_next-Moves xs a (b ∷ ys) is n at owns =
      let whole = xs ++ (a ∷ b ∷ ys) in
      let swapped = Swapped m head xs a b ys (selected_next xs a b ys is sel) in
      Commands.mono (λ r m'. swapped r m' × Owns o m' whole) (Moves o head page mark _) _
        (Later-both swapped (λ _ m'. Owns o m' whole) (swap_node a.addr true sel m)
          (swap_node-next xs a b ys is sel) (swap_node-Owns a.addr true sel whole owns))
        (λ r m' s. Swapped-Tracks o page mark xs a b ys n at s.1 s.0)

  swap_prv-second :
      (xs : List Entry) (u a : Entry) (ys : List Entry)
      → IsPlaylist m head ((xs ++ (u ∷ [])) ++ (a ∷ ys))
      → Named m.text ((xs ++ (u ∷ [])) ++ (a ∷ ys))
      → Marks mark ((xs ++ (u ∷ [])) ++ (a ∷ ys)) page
      → Owns o m ((xs ++ (u ∷ [])) ++ (a ∷ ys))
      → Ensures
          (Moves o head page mark
            (moved_up (paths m.text (xs ++ (u ∷ []))) (text_at m.text a.path) (paths m.text ys)))
          (swap_node a.addr false sel m)
  swap_prv-second xs u a ys is n at owns =
      let is' = subst (IsPlaylist m head) (append_assoc xs (u ∷ []) (a ∷ ys)) is in
      let up =
        ap (λ us. moved_up us (text_at m.text a.path) (paths m.text ys))
          (paths-append m.text xs (u ∷ []))
        ∙ moved_up-snoc (paths m.text xs) (text_at m.text u.path) (text_at m.text a.path)
            (paths m.text ys) in
      let whole = xs ++ (u ∷ a ∷ ys) in
      let e = append_assoc xs (u ∷ []) (a ∷ ys) in
      let swapped = Swapped m head xs u a ys (selected_prv xs u a ys is' sel) in
      subst (λ x. Ensures (Moves o head page mark x) (swap_node a.addr false sel m)) (sym up)
        (Commands.mono (λ r m'. swapped r m' × Owns o m' whole) (Moves o head page mark _) _
          (Later-both swapped (λ _ m'. Owns o m' whole) (swap_node a.addr false sel m)
            (swap_node-prv xs u a ys is' sel)
            (swap_node-Owns a.addr false sel whole (subst (Owns o m) e owns)))
          (λ r m' s.
            Swapped-Tracks o page mark xs u a ys (subst (Named m.text) e n)
              (subst (λ l. Marks mark l page) e at) s.1 s.0))

  pub swap_prv-Moves :
      (xs : List Entry) (a : Entry) (ys : List Entry)
      → IsPlaylist m head (xs ++ (a ∷ ys))
      → Named m.text (xs ++ (a ∷ ys))
      → Marks mark (xs ++ (a ∷ ys)) page
      → Owns o m (xs ++ (a ∷ ys))
      → Ensures
          (Moves o head page mark
            (moved_up (paths m.text xs) (text_at m.text a.path) (paths m.text ys)))
          (swap_node a.addr false sel m)
  swap_prv-Moves [] a ys is n at owns =
      rw (swap_node-first m a.addr sel is.seg.0) (refl, (a ∷ ys, is, refl, n, at, owns))
  swap_prv-Moves (x ∷ xs) a ys is n at owns =
      let e = snoc-eq x xs in
      subst
        (λ l.
          Ensures
            (Moves o head page mark
              (moved_up (paths m.text l) (text_at m.text a.path) (paths m.text ys)))
            (swap_node a.addr false sel m))
        e
        (swap_prv-second (DropLast.all_but_last (x ∷ xs)) (last_entry x xs) a ys
          (subst (λ l. IsPlaylist m head (l ++ (a ∷ ys))) (sym e) is)
          (subst (λ l. Named m.text (l ++ (a ∷ ys))) (sym e) n)
          (subst (λ l. Marks mark (l ++ (a ∷ ys)) page) (sym e) at)
          (subst (λ l. Owns o m (l ++ (a ∷ ys))) (sym e) owns))
