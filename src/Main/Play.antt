-- ===== src/Main/Play.antt =====
-- The swaps of `main`, and what it prints and saves.
use mathlib.Core.Path.{subst, sym}
use slogger.Base.{
  ℕ, ◌<◌, ◌≡◌, refl, ap, ◌∙◌, ◌≢◌, true, false, some, none, List, [], ◌∷◌, length, ==-refl,
}
use slogger.Memory.{Node, Store, Ptr, null, Text, Memory, done, Ensures}
use slogger.Memory.Commands
use slogger.Playlist.{swap_node}
use slogger.Playlist.Entries.{Entry, IsPlaylist}
use slogger.Playlist.File.Reading.{without_first}
use slogger.Playlist.Display.{paths, text_at, text_at-some, display_list_lem}
use slogger.Playlist.Swap.{
  Swapped, with_strings, selected_next, selected_prv, swap_node-next, swap_node-prv,
}
use slogger.Main.{look_again, swap_back, Played, play, selected_name, thin_out}
use slogger.Main.Thin.{thinned, Thinned, thin_out-Ending}

-- The node `p` holds a name.
pub selected_name_lem :
    (m : Memory) (p : Ptr) {n : Node}
    → m.node p ≡ some n
    → m.text n.file ≢ none
    → selected_name p m ≡ done (text_at m.text n.file) m
unfolding selected_name
selected_name_lem m p {n} e here =
    rw (Commands.load-some m p e, Commands.read-some m n.file (text_at-some m.text n.file here))

-- What is printed for the entries `a`, `b` and `ys` in this order at last, after `name` and `lines`.
abbrev pub outcome : Text → List Text → Text → List Text → Played
outcome name lines again ts = record {
  selected = name;
  selected_again = again;
  swapped = lines;
  restored = ts;
  rest = thinned (without_first ts);
}

abbrev pub Comes : Played → Played → Memory → Type 0
Comes o' o m = o ≡ o'

look_again-outcome :
    {m : Memory} (k : ℕ) (a b : Entry) (ys : List Entry) (name : Text) (lines : List Text)
    → IsPlaylist m a.addr (a ∷ b ∷ ys)
    → length (a ∷ b ∷ ys) < k
    → Ensures
        (Comes (outcome name lines (text_at m.text a.file) (paths m.text (a ∷ b ∷ ys))))
        (look_again true k a.addr null (name, lines) a.addr m)
unfolding look_again
look_again-outcome {m} k a b ys name lines is lt =
    rw (selected_name_lem m a.addr is.seg.0 is.owned.1.0, display_list_lem k (a ∷ b ∷ ys) is lt)
      (Commands.bind (Thinned (paths m.text (b ∷ ys)))
        (Comes (outcome name lines (text_at m.text a.file) (paths m.text (a ∷ b ∷ ys))))
        (thin_out true k a.addr null m) _ (thin_out-Ending k a b ys is lt)
        (λ e m' same.
          ap
            (λ e'. record {
              selected = name;
              selected_again = text_at m.text a.file;
              swapped = lines;
              restored = paths m.text (a ∷ b ∷ ys);
              rest = e';
            })
            same))

-- What is printed once `c` and `d` have been exchanged, and are exchanged again.
abbrev swapped_back : Store Text → Entry → Entry → List Entry → Played
swapped_back t c d ys =
    outcome (text_at t d.file) (paths t (c ∷ d ∷ ys)) (text_at t d.file) (paths t (d ∷ c ∷ ys))

swap_back-outcome :
    {m : Memory} (k : ℕ) (c d : Entry) (ys : List Entry)
    → IsPlaylist m c.addr (c ∷ d ∷ ys)
    → length (c ∷ d ∷ ys) < k
    → Ensures (Comes (swapped_back m.text c d ys)) (swap_back true k c.addr null d.addr m)
unfolding swap_back
swap_back-outcome {m} k c d ys is lt =
    rw
      (
        selected_name_lem m d.addr is.seg.1.0 is.owned.1.1.1.0,
        display_list_lem k (c ∷ d ∷ ys) is lt,
        Commands.load-some m c.addr is.seg.0,
      )
      (Commands.bind (Swapped m c.addr [] c d ys (selected_prv [] c d ys is d.addr))
        (Comes (swapped_back m.text c d ys)) (swap_node d.addr false d.addr m) _
        (swap_node-prv [] c d ys is d.addr)
        (λ r m' s.
          let name = text_at m.text d.file in
          let lines = paths m.text (c ∷ d ∷ ys) in
          let sel : r.1 ≡ c.addr = s.selected ∙ rw (==-refl d.addr) refl in
          subst
            (λ p.
              Ensures (Comes (swapped_back m.text c d ys))
                (look_again true k c.addr null (name, lines) p m'))
            (sym sel)
            (subst
              (λ t.
                Ensures (Comes (outcome name lines (text_at t d.file) (paths t (d ∷ c ∷ ys))))
                  (look_again true k c.addr null (name, lines) c.addr m'))
              s.texts
              (look_again-outcome k (with_strings c d) (with_strings d c) ys name lines s.list
                lt))))

-- What `play` prints and saves for the entries `a`, `b` and `ys`.
abbrev pub played : Store Text → Entry → Entry → List Entry → Played
played t a b ys =
    outcome (text_at t a.file) (paths t (b ∷ a ∷ ys)) (text_at t a.file) (paths t (a ∷ b ∷ ys))

pub play-played :
    {m : Memory} {head : Ptr} (k : ℕ) (a b : Entry) (ys : List Entry)
    → IsPlaylist m head (a ∷ b ∷ ys)
    → length (a ∷ b ∷ ys) < k
    → Ensures (Comes (played m.text a b ys)) (play true k head null m)
unfolding play
play-played {m} {head} k a b ys is lt =
    let is' : IsPlaylist m a.addr (a ∷ b ∷ ys) =
      subst (λ p. IsPlaylist m p (a ∷ b ∷ ys)) is.first is in
    subst (λ p. Ensures (Comes (played m.text a b ys)) (play true k p null m)) (sym is.first)
      (Commands.bind (Swapped m a.addr [] a b ys (selected_next [] a b ys is' a.addr))
        (Comes (played m.text a b ys)) (swap_node a.addr true a.addr m) _
        (swap_node-next [] a b ys is' a.addr)
        (λ r m' s.
          let sel : r.1 ≡ b.addr = s.selected ∙ rw (==-refl a.addr) refl in
          subst (λ p. Ensures (Comes (played m.text a b ys)) (swap_back true k a.addr null p m'))
            (sym sel)
            (subst (λ t. Ensures (Comes (played t a b ys)) (swap_back true k a.addr null b.addr m'))
              s.texts (swap_back-outcome k (with_strings a b) (with_strings b a) ys s.list lt))))
