-- ===== src/Playlist/Calls/Pages.antt =====
-- `getPage` and `displayPage` on a play list, and on its paths.
use slogger.Base.{Bool, take, drop, ℕ, ◌≡◌, refl, none, some, List, []}
use slogger.Memory.Keeps.{Spot}
use slogger.Playlist.Owned.{Owns}
use mathlib.Core.Path.{subst, sym}
use slogger.Memory.{null, Memory, done}
use slogger.Playlist.{display_page, page_len}
use slogger.Playlist.Entries.{Entry, IsPlaylist}
use slogger.Playlist.Page.{get_page_refines}
use slogger.Playlist.Display.{paths, display_page_lem}
use slogger.Playlist.Content.{length-paths}
use slogger.Playlist.Calls.{
  Handles, Mark, nowhere, lost, at_index, turn_page, show_page, perform, on_paths,
}
use slogger.Playlist.Calls.Named.{Named}
use slogger.Playlist.Calls.Marks.{Marks, turned-Marks}
use slogger.Playlist.Calls.Agreement.{Agrees, view}

-- `displayPage` at `NULL` prints nothing.
display_page-null : (m : Memory) → display_page null m ≡ done [] m
display_page-null m =
    display_page_lem {m = m} {head = null} [] 0
      (record { first = refl; seg = tt; nodes = tt; texts = tt; owned = tt })

module _ (k : ℕ) (h : Handles) (o : Spot → Bool) {m : Memory} where
  pub turned-Agrees :
      (mark : Mark) (next : Bool) (xs : List Entry)
      → IsPlaylist m h.list xs
      → Named m.text xs
      → Marks mark xs h.page
      → Owns o m xs
      → Agrees o (on_paths (turn_page next) (view m.text xs mark)) (perform k (turn_page next) h m)
  unfolding on_paths perform
  turned-Agrees nowhere next xs is nm at owns =
      rw (at, length-paths m.text xs, get_page_refines xs next none is tt)
        (refl, (xs, is, refl, nm, turned-Marks xs next none tt, owns))
  turned-Agrees lost next xs is nm at owns = tt
  turned-Agrees (at_index i) next xs is nm (lt, at) owns =
      rw (at, length-paths m.text xs, get_page_refines xs next (some i) is lt)
        (refl, (xs, is, refl, nm, turned-Marks xs next (some i) lt, owns))

  pub shown-Agrees :
      (mark : Mark) (xs : List Entry)
      → IsPlaylist m h.list xs
      → Named m.text xs
      → Marks mark xs h.page
      → Owns o m xs
      → Agrees o (on_paths show_page (view m.text xs mark)) (perform k show_page h m)
  unfolding on_paths perform
  shown-Agrees nowhere xs is nm at owns =
      let shown = subst (λ p. display_page p m ≡ done [] m) (sym at) (display_page-null m) in
      rw shown (refl, (xs, is, refl, nm, at, owns))
  shown-Agrees lost xs is nm at owns = tt
  shown-Agrees (at_index i) xs is nm (lt, at) owns =
      let shown =
        subst (λ p. display_page p m ≡ done (take page_len (drop i (paths m.text xs))) m) (sym at)
          (display_page_lem xs i is) in
      rw shown (refl, (xs, is, refl, nm, (lt, at), owns))
