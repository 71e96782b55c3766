-- ===== src/Playlist/Calls/Refine.antt =====
-- Every sequence of calls on a play list against the same sequence on its paths.
use slogger.Base.{Bool, ℕ, ◌<◌, refl, List, length}
use slogger.Memory.Keeps.{Spot}
use slogger.Playlist.Owned.{Owns}
use slogger.Playlist.Calls.Additions.{append-Agrees, prepend-Agrees}
use slogger.Playlist.Calls.Changes.{remove-Agrees, swap-Agrees}
use slogger.Playlist.Calls.Agreement.{FreshCall, Agrees, view}
use slogger.Playlist.Calls.Pages.{turned-Agrees, shown-Agrees}
use slogger.Playlist.Calls.{
  Mark, turn_page, show_page, Call, append, prepend, remove, swap, display, Handles, perform,
  on_paths,
}
use slogger.Playlist.Calls.Marks.{Marks}
use slogger.Memory.{Memory}
use slogger.Playlist.Entries.{Entry, IsPlaylist}
use slogger.Playlist.Display.{display_list_lem}
use slogger.Playlist.Calls.Named.{Named}

module _ (k : ℕ) (h : Handles) (mark : Mark) (o : Spot → Bool) {m : Memory} where
  display-Agrees :
      (xs : List Entry)
      → IsPlaylist m h.list xs
      → Named m.text xs
      → Marks mark xs h.page
      → Owns o m xs
      → length xs < k
      → Agrees o (on_paths display (view m.text xs mark)) (perform k display h m)
  unfolding on_paths perform
  display-Agrees xs is nm at owns lt =
      rw (display_list_lem k xs is lt) (refl, (xs, is, refl, nm, at, owns))

  pub perform-Agrees :
      (c : Call) (xs : List Entry)
      → IsPlaylist m h.list xs
      → Named m.text xs
      → Marks mark xs h.page
      → Owns o m xs
      → length xs < k
      → FreshCall c m
      → Agrees o (on_paths c (view m.text xs mark)) (perform k c h m)
  perform-Agrees (append b path) xs is nm at owns lt u =
      append-Agrees k h mark o b path xs is nm at owns lt u
  perform-Agrees (prepend b path) xs is nm at owns lt u =
      prepend-Agrees k h mark o b path xs is nm at owns lt u
  perform-Agrees (remove path) xs is nm at owns lt u =
      remove-Agrees k h mark o path xs is nm at owns lt
  perform-Agrees (swap next path) xs is nm at owns lt u =
      swap-Agrees k h mark o next path xs is nm at owns lt
  perform-Agrees display xs is nm at owns lt u = display-Agrees xs is nm at owns lt
  perform-Agrees (turn_page next) xs is nm at owns lt u =
      turned-Agrees k h o mark next xs is nm at owns
  perform-Agrees show_page xs is nm at owns lt u = shown-Agrees k h o mark xs is nm at owns
