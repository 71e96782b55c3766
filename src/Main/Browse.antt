-- ===== src/Main/Browse.antt =====
-- The pages that `main` turns.
use slogger.Base.{
  ℕ, ◌<◌, ◌≡◌, refl, Bool, true, false, some, List, [], ◌∷◌, arith, length, take, drop,
}
use slogger.Memory.{Ptr, Text, Memory, done}
use slogger.Playlist.{page_len}
use slogger.Playlist.Entries.{Entry, IsPlaylist}
use slogger.Playlist.Index.{addr_at}
use slogger.Playlist.Page.{turn, get_page_refines}
use slogger.Playlist.Display.{paths, display_page_lem}
use slogger.Playlist.Content.{length-paths}
use slogger.Playlist.File.RoundTrip.{unlines, save_playlist-unlines}
use slogger.Main.{browse, browse_and_save, turns, Ending}

-- The page that begins at an index.
abbrev pub page_at : List Text → ℕ → List Text
page_at ts i = take page_len (drop i ts)

-- The pages of a list of paths for turns that begin at index `i`.
abbrev pub pages_from : List Text → ℕ → List Bool → List (List Text)
pages_from ts i [] = []
pages_from ts i (next ∷ ns) =
    let j = (turn (length ts) next (some i)).1 in page_at ts j ∷ pages_from ts j ns

turn-lt : (n i : ℕ) (next : Bool) → i < n → (turn n next (some i)).1 < n
turn-lt n i true lt = ground arith
turn-lt n i false lt = ground arith

browse_lem :
    {m : Memory} {head : Ptr} (xs : List Entry) (ns : List Bool) (i : ℕ)
    → IsPlaylist m head xs
    → i < length xs
    → browse ns head (addr_at xs i) m ≡ done (pages_from (paths m.text xs) i ns) m
unfolding browse
browse_lem xs [] i is lt = refl
browse_lem {m} xs (next ∷ ns) i is lt =
    rw
      (
        get_page_refines xs next (some i) is lt,
        display_page_lem xs (turn (length xs) next (some i)).1 is,
        browse_lem xs ns (turn (length xs) next (some i)).1 is (turn-lt (length xs) i next lt),
        length-paths m.text xs,
      )
      refl

-- What `browse_and_save` comes to for a list of paths.
abbrev pub ending : List Text → Ending
ending ts = record { pages = page_at ts 0 ∷ pages_from ts 0 turns; saved = some (unlines ts) }

pub browse_and_save_lem :
    {m : Memory} {head : Ptr} (k : ℕ) (xs : List Entry)
    → IsPlaylist m head xs
    → 0 < length xs
    → length xs < k
    → browse_and_save true k head (addr_at xs 0) m ≡ done (ending (paths m.text xs)) m
unfolding browse_and_save
browse_and_save_lem {m} k xs is some_ lt =
    rw (display_page_lem xs 0 is, browse_lem xs turns 0 is some_, save_playlist-unlines k xs is lt)
      refl
