-- ===== src/Main/Run.antt =====
-- `main` from the file that it reads to the file that it saves.
use slogger.Base.{
  suc, length-drop, ℕ, ◌-◌, ◌<◌, ◌≤◌, ◌≡◌, refl, ap, ◌∙◌, Bool, true, false, some, none, List, [],
  ◌∷◌, arith, length,
}
use mathlib.Core.Path.{subst, sym}
use slogger.Memory.{Store, Ptr, null, Text, Memory, Ensures, crash}
use slogger.Memory.Commands
use slogger.Playlist.{Blocks, max_play_list_len}
use slogger.Playlist.Entries.{Entry, IsPlaylist}
use slogger.Playlist.Swap.{swap_node-null, swap_node-last}
use slogger.Playlist.Display.{paths, text_at, display_list_lem}
use slogger.Playlist.Content.{Shows, length-paths}
use slogger.Playlist.File.{read_playlist}
use slogger.Playlist.File.RoundTrip.{AllShort, unlines}
use slogger.Playlist.File.Reading.{FreshRun, HasRead, last_lines, read_playlist-Shows}
use slogger.Main.{Played, play, run, swap_back}
use slogger.Main.Thin.{thinned}
use slogger.Main.Play.{played, Comes, play-played, selected_name_lem}

-- What `main` prints and saves for the paths `t`, `u` and `ts`: the list with the first two
-- exchanged, the list as it was, the list without `t`, and the pages and the file without the path
-- behind `u` either.
pub record Ran (t u : Text) (ts : List Text) (o : Played) (m : Memory) : Type 0 where
  pub follows : o.selected ≡ o.selected_again
  pub swapped : o.swapped ≡ u ∷ t ∷ ts
  pub restored : o.restored ≡ t ∷ u ∷ ts
  pub rest : o.rest ≡ thinned (u ∷ ts)

Comes-Ran :
    (s : Store Text) (a b : Entry) (ys : List Entry) (t u : Text) (ts : List Text)
    → paths s (a ∷ b ∷ ys) ≡ t ∷ u ∷ ts
    → (o : Played) (m : Memory) → Comes (played s a b ys) o m
    → Ran t u ts o m
Comes-Ran s a b ys t u ts e o m c =
    let first : text_at s a.path ≡ t = cc in
    let second : text_at s b.path ≡ u = cc in
    let others : paths s ys ≡ ts = cc in
    record {
      follows = ap (λ p. p.selected) c ∙ sym (ap (λ p. p.selected_again) c);
      swapped = ap (λ p. p.swapped) c ∙ rw (first, second, others) refl;
      restored = ap (λ p. p.restored) c ∙ e;
      rest = ap (λ p. p.rest) c ∙ rw (second, others) refl;
    }

play-Ran :
    {m : Memory} {head : Ptr} (k : ℕ) (t u : Text) (ts : List Text)
    → Shows m head (t ∷ u ∷ ts)
    → length (t ∷ u ∷ ts) < k
    → Ensures (Ran t u ts) (play true k head null m)
play-Ran {m} k t u ts ([], is, e) lt = cc
play-Ran {m} k t u ts ((a ∷ []), is, e) lt = cc
play-Ran {m} {head} k t u ts ((a ∷ b ∷ ys), is, e) lt =
    Commands.mono (Comes (played m.text a b ys)) (Ran t u ts) (play true k head null m)
      (play-played k a b ys is (omega (arith, length-paths m.text (a ∷ b ∷ ys), ap length e)))
      (Comes-Ran m.text a b ys t u ts e)

last_lines-short : (us : List Text) → length (last_lines us) ≤ max_play_list_len
last_lines-short us = omega (arith, length-drop (length us - max_play_list_len) us)

-- `main`, from a file of lines of at most 254 characters, none of them 0, of which the last
-- sixteen are `t`, `u` and others, with fuel above `MaxPlayListLen` and fresh blocks, one for each
-- line: it ends; both times the selection is the same track; it prints the list with the first two
-- exchanged, then as it was, then without `t`; and its pages and the file that it saves are those
-- of the list without `t` and without the path behind `u`.
pub run-Ran :
    (k : ℕ) (bs : List Blocks) (us : List Text) (m : Memory) {t u : Text} {ts : List Text}
    → max_play_list_len < k
    → AllShort us
    → FreshRun [] bs
    → length us ≡ length bs
    → last_lines us ≡ t ∷ u ∷ ts
    → Ensures (Ran t u ts) (run true (suc (length (unlines us))) k bs (some (unlines us)) m)
unfolding run
run-Ran k bs us m {t} {u} {ts} lt short f e last =
    Commands.bind (HasRead (last_lines us)) (Ran t u ts)
      (read_playlist (suc (length (unlines us))) k bs (some (unlines us)) null m) _
      (read_playlist-Shows k bs us m lt short f e)
      (λ r m' read.
        play-Ran k t u ts (subst (Shows m' r.1) last read.1)
          (omega (arith, last_lines-short us, ap length last)))

-- On a play list of no entry or one, with fuel above its length and nothing at `NULL`, the part of
-- `main` on the play list follows `NULL`, and the run is undefined.
pub play-too_short :
    {m : Memory} {head : Ptr} (opened : Bool) (k : ℕ) (page : Ptr) (xs : List Entry)
    → IsPlaylist m head xs
    → length xs < 2
    → length xs < k
    → m.node null ≡ none
    → play opened k head page m ≡ crash
unfolding play swap_back
play-too_short {m} opened k page [] is le lt nothing =
    subst (λ p. play opened k p page m ≡ crash) (sym is.first)
      (rw (swap_node-null m true null nothing) refl)
play-too_short {m} opened k page (x ∷ []) is le lt nothing =
    let own : IsPlaylist m x.addr (x ∷ []) = subst (λ p. IsPlaylist m p (x ∷ [])) is.first is in
    subst (λ p. play opened k p page m ≡ crash) (sym is.first)
      (rw
        (
          swap_node-last m x.addr x.addr is.seg.0,
          selected_name_lem m x.addr is.seg.0 is.owned.1.0,
          display_list_lem k (x ∷ []) own lt,
          Commands.load-some m x.addr is.seg.0,
          swap_node-null m false x.addr nothing,
        )
        refl)
play-too_short opened k page (x ∷ y ∷ ys) is le lt nothing = absurd (omega arith)
