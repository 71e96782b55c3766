-- ===== src/Playlist/Bounds.antt =====
-- The length of a play list.
use slogger.Base.{ℕ, ◌≤◌, ◌<◌, ◌≡◌, List, [], ◌∷◌, ◌++◌, arith, length, length-append}
use slogger.Memory.{Ptr, Text, Memory, Ensures}
use slogger.Memory.Commands
use slogger.Playlist.{Blocks, max_play_list_len, add_last, add_front}
use slogger.Playlist.Entries.{Entry, IsPlaylist}
use slogger.Playlist.New.{IsFresh, Added, entry}
use slogger.Playlist.Append.{kept_last, rest, add_last-Added}
use slogger.Playlist.DropLast.{all_but_last}
use slogger.Playlist.Prepend.{kept_front, add_front-Added}

-- A play list of at most `MaxPlayListLen` entries lies at `head`.
abbrev pub Bounded : Ptr → Memory → Type 0
Bounded head m = (xs : List Entry) × IsPlaylist m head xs × (length xs ≤ max_play_list_len)

rest-short :
    (zs : List Entry) → length zs ≡ max_play_list_len → length (rest zs) < max_play_list_len
rest-short [] e = omega arith
rest-short (z ∷ zs) e = omega arith

all_but_last-short :
    (x : Entry) (xs : List Entry) → length (all_but_last (x ∷ xs)) < length (x ∷ xs)
all_but_last-short x [] = omega arith
all_but_last-short x (y ∷ ys) = omega (arith, all_but_last-short y ys)

pub kept_last-short :
    (zs : List Entry) → length zs ≤ max_play_list_len → length (kept_last zs) < max_play_list_len
kept_last-short zs le = ground (arith, rest-short zs)

kept_front-short :
    (x : Entry) (xs : List Entry)
    → length (x ∷ xs) ≤ max_play_list_len
    → length (kept_front (x ∷ xs)) < max_play_list_len
kept_front-short x xs le = ground (arith, all_but_last-short x xs)

module _ {m : Memory} {head : Ptr} (k : ℕ) (b : Blocks) (path : Text) where
  -- On a play list of at most `MaxPlayListLen` entries, with fuel above its length and fresh
  -- blocks, `addplaylist_last` leaves a well-formed play list of at most `MaxPlayListLen` entries.
  pub add_last-Bounded :
      (xs : List Entry)
      → IsPlaylist m head xs
      → length xs ≤ max_play_list_len
      → length xs < k
      → IsFresh b (kept_last xs)
      → Ensures Bounded (add_last k b head path m)
  add_last-Bounded xs is le lt f =
      Commands.mono (Added m b path (kept_last xs) (kept_last xs ++ (entry b ∷ []))) Bounded
        (add_last k b head path m) (add_last-Added k b path xs is lt f)
        (λ h m' a. (
          kept_last xs ++ (entry b ∷ []),
          a.list,
          omega (arith, length-append (kept_last xs) (entry b ∷ []), kept_last-short xs le),
        ))

  -- On a play list that is not empty, of at most `MaxPlayListLen` entries, with fuel above its
  -- length and fresh blocks, `addplaylist_front` leaves a well-formed play list of at most
  -- `MaxPlayListLen` entries.
  pub add_front-Bounded :
      (x : Entry) (xs : List Entry)
      → IsPlaylist m head (x ∷ xs)
      → length (x ∷ xs) ≤ max_play_list_len
      → length (x ∷ xs) < k
      → IsFresh b (kept_front (x ∷ xs))
      → Ensures Bounded (add_front k b head path m)
  add_front-Bounded x xs is le lt f =
      Commands.mono (Added m b path (kept_front (x ∷ xs)) (entry b ∷ kept_front (x ∷ xs))) Bounded
        (add_front k b head path m) (add_front-Added k b path x xs is lt f)
        (λ h m' a. (entry b ∷ kept_front (x ∷ xs), a.list, omega (arith, kept_front-short x xs le)))
