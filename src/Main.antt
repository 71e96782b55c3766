-- ===== src/Main.antt =====
-- `main` of main.c, the part on the play list: what it prints, and the file that it saves.
pub mod Browse
pub mod Thin
pub mod Play
pub mod Run
pub mod Session
mod Tests
use slogger.Base.{ℕ, Bool, true, false, Option, none, some, List, [], ◌∷◌}
use slogger.Memory.{Ptr, null, Text, Cmd, pure, ◌>>=◌, load, read}
use slogger.Playlist.{Blocks, Removed, swap_node, remove_node, display_list, display_page, get_page}
use slogger.Playlist.File.{read_playlist, save_playlist}

-- Turns of the page in the given directions, each followed by `displayPage`.
pub browse : List Bool → (playlist page : Ptr) → Cmd (List (List Text))
browse [] playlist page = pure []
browse (next ∷ turns) playlist page = do
  (_, page') ← get_page playlist next page
  lines ← display_page page'
  pages ← browse turns playlist page'
  pure (lines ∷ pages)

abbrev pub turns : List Bool
turns = true ∷ true ∷ true ∷ false ∷ false ∷ false ∷ false ∷ []

-- The pages that are printed, and the file that `saveplaylist` writes if it can open it.
pub record Ending : Type 0 where
  pub pages : List (List Text)
  pub saved : Option Text

-- From the first `displayPage` on.
pub browse_and_save : (opened : Bool) → ℕ → (playlist page : Ptr) → Cmd Ending
unfolding browse
browse_and_save opened k playlist page = do
  lines ← display_page page
  pages ← browse turns playlist page
  (_, file) ← save_playlist opened k playlist
  pure (record { pages = lines ∷ pages; saved = file })

-- From the second `removeplayNode` on.
pub remove_second : (opened : Bool) → ℕ → (playlist page : Ptr) → Cmd Ending
remove_second opened k playlist page = do
  n ← load playlist
  r ← remove_node playlist n.next page
  browse_and_save opened k r.list r.page

-- From the `displaylist` behind the first `removeplayNode` on: the list that it prints, and the rest.
pub show_rest : (opened : Bool) → ℕ → (playlist page : Ptr) → Cmd (List Text × Ending)
show_rest opened k playlist page = do
  lines ← display_list k playlist
  (_, page') ← get_page playlist true page
  ending ← remove_second opened k playlist page'
  pure (lines, ending)

-- From the first `removeplayNode` on.
pub thin_out : (opened : Bool) → ℕ → (playlist page : Ptr) → Cmd (List Text × Ending)
thin_out opened k playlist page = do
  r ← remove_node playlist playlist page
  show_rest opened k r.list r.page

-- `selectedlist->file`.
pub selected_name : Ptr → Cmd Text
selected_name sel = do n ← load sel; read n.file

-- What `main` prints before the first removal, and all that follows.
pub record Played : Type 0 where
  pub selected : Text
  pub selected_again : Text
  pub swapped : List Text
  pub restored : List Text
  pub rest : List Text × Ending

-- Behind the second `swapplayNode`, which has left `sel`; `before` was printed by then.
pub look_again :
    (opened : Bool) → ℕ → (playlist page : Ptr) → Text × List Text → (sel : Ptr) → Cmd Played
look_again opened k playlist page (name, lines) sel = do
  name' ← selected_name sel
  lines' ← display_list k playlist
  rest ← thin_out opened k playlist page
  pure (record {
    selected = name;
    selected_again = name';
    swapped = lines;
    restored = lines';
    rest = rest;
  })

-- Behind the first `swapplayNode`.
pub swap_back : (opened : Bool) → ℕ → (playlist page sel : Ptr) → Cmd Played
swap_back opened k playlist page sel = do
  name ← selected_name sel
  lines ← display_list k playlist
  n ← load playlist
  (_, sel') ← swap_node n.next false sel
  look_again opened k playlist page (name, lines) sel'

pub play : (opened : Bool) → ℕ → (playlist page : Ptr) → Cmd Played
play opened k playlist page = do
  (_, sel) ← swap_node playlist true playlist
  swap_back opened k playlist page sel

-- All of it, from `readplaylist` on. `headoflist` is `NULL` at first.
pub run : (opened : Bool) → (fuel k : ℕ) → List Blocks → Option Text → Cmd Played
run opened fuel k bs file = do
  (_, playlist) ← read_playlist fuel k bs file null
  play opened k playlist null
