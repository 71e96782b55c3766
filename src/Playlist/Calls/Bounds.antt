-- ===== src/Playlist/Calls/Bounds.antt =====
-- No call makes a list of at most `MaxPlayListLen` paths longer than that.
use slogger.Playlist.Calls.{
  Mark, View, nowhere, lost, at_index, turn_page, show_page, Call, append, prepend, remove, swap,
  display, Reply, Split, first_at, under, all_but_last, front_room, moved_back, moved_up, removed,
  swapped, on_paths,
}
use slogger.Base.{
  suc, ◌+◌, ◌≤◌, ◌<◌, ◌≡◌, refl, Bool, true, false, Option, none, some, List, [], ◌∷◌, ◌++◌, arith,
  ◌==◌, length, length-append, inl, inr, Bool-cases,
}
use slogger.Memory.{Text}
use slogger.Playlist.{max_play_list_len}
use slogger.Playlist.FileName.{text_eq}
use slogger.Playlist.File.Reading.{room}

abbrev pub Fits : Option (Reply × View) → Type 0
Fits none = Unit {0}
Fits (some x) = length x.1.paths ≤ max_play_list_len

abbrev Whole : List Text → Option Split → Type 0
Whole ts none = Unit {0}
Whole ts (some s) = length s.before + suc (length s.behind) ≡ length ts

first_at-Whole : (path : Text) (ts : List Text) → Whole ts (first_at path ts)
first_at-Whole path [] = tt
first_at-Whole path (t ∷ ts) = elim (Bool-cases (text_eq t path)) [
  | inl same ↦ rw same (omega arith)
  | inr other ↦ rw other (longer (first_at path ts) (first_at-Whole path ts))
]
  where
    longer : (o : Option Split) → Whole ts o → Whole (t ∷ ts) (under t o)
    longer none w = tt
    longer (some s) w = omega (arith, w)

all_but_last-length :
    (t : Text) (ts : List Text) → suc (length (all_but_last (t ∷ ts))) ≡ length (t ∷ ts)
all_but_last-length t [] = refl
all_but_last-length t (u ∷ us) = omega (arith, all_but_last-length u us)

moved_up-length :
    (us : List Text) (t : Text) (vs : List Text)
    → length (moved_up us t vs).1 ≡ length us + suc (length vs)
moved_up-length [] t vs = omega arith
moved_up-length (u ∷ []) t vs = omega arith
moved_up-length (u ∷ u' ∷ us) t vs = omega (arith, moved_up-length (u' ∷ us) t vs)

moved_back-length :
    (us : List Text) (t : Text) (vs : List Text)
    → length (moved_back us t vs).1 ≡ length us + suc (length vs)
moved_back-length us t [] = length-append us (t ∷ [])
moved_back-length us t (v ∷ vs) = length-append us (v ∷ t ∷ vs)

removed-Fits :
    (v : View) (o : Option Split)
    → length v.paths ≤ max_play_list_len
    → Whole v.paths o
    → Fits (removed v o)
removed-Fits v none le w = le
removed-Fits v (some s) le w = elim (Bool-cases (length (s.before ++ s.behind) == 0)) [
  | inl z ↦ rw z tt
  | inr n ↦ rw n (omega (arith, w, length-append s.before s.behind))
]

swapped-Fits :
    (next : Bool) (ts : List Text) (o : Option Split)
    → length ts ≤ max_play_list_len
    → Whole ts o
    → length (swapped next ts o).1 ≤ max_play_list_len
swapped-Fits next ts none le w = le
swapped-Fits true ts (some s) le w = omega (arith, w, moved_back-length s.before s.at s.behind)
swapped-Fits false ts (some s) le w = omega (arith, w, moved_up-length s.before s.at s.behind)

room-length :
    (ts : List Text) → length ts ≤ max_play_list_len → length (room ts) < max_play_list_len
room-length [] le = omega arith
room-length (t ∷ ts) le = ground arith

front_room-length :
    (t : Text) (ts : List Text)
    → length (t ∷ ts) ≤ max_play_list_len
    → length (front_room (t ∷ ts)) < max_play_list_len
front_room-length t ts le = ground (arith, all_but_last-length t ts)

pub on_paths-Fits :
    (c : Call) (ts : List Text) (mark : Mark)
    → length ts ≤ max_play_list_len
    → Fits (on_paths c (record { paths = ts; mark = mark }))
unfolding on_paths
on_paths-Fits (append b path) ts mark le =
    omega (arith, length-append (room ts) (path ∷ []), room-length ts le)
on_paths-Fits (prepend b path) [] mark le = tt
on_paths-Fits (prepend b path) (t ∷ ts) mark le = omega (arith, front_room-length t ts le)
on_paths-Fits (remove path) ts mark le =
    removed-Fits (record { paths = ts; mark = mark }) (first_at path ts) le (first_at-Whole path ts)
on_paths-Fits (swap next path) ts mark le =
    swapped-Fits next ts (first_at path ts) le (first_at-Whole path ts)
on_paths-Fits display ts mark le = le
on_paths-Fits (turn_page next) ts nowhere le = le
on_paths-Fits (turn_page next) ts lost le = tt
on_paths-Fits (turn_page next) ts (at_index i) le = le
on_paths-Fits show_page ts nowhere le = le
on_paths-Fits show_page ts lost le = tt
on_paths-Fits show_page ts (at_index i) le = le
