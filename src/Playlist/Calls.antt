-- ===== src/Playlist/Calls.antt =====
-- Sequences of calls of the functions of playlinklist.h on one play list, and what they are on a
-- list of paths.
pub mod Named
pub mod First
pub mod Fresh
pub mod Swaps
pub mod Marks
pub mod MarkRemoval
pub mod Agreement
pub mod Additions
pub mod Changes
pub mod Pages
pub mod Refine
pub mod Undefined
pub mod Bounds
pub mod Sequence
pub mod Crashes
mod Tests
use slogger.Playlist.{
  get_page, display_page, page_len, Blocks, max_play_list_len, Removed, add_last, add_front,
  remove_path, swap_path, display_list,
}
use slogger.Playlist.Page.{turn}
use slogger.Base.{
  zero, suc, ◌+◌, ◌-◌, ◌&&◌, ltb, take, drop, ℕ, Bool, true, false, Option, none, some, List, [],
  ◌∷◌, ◌++◌, ◌==◌, if◌then◌else◌, length,
}
use slogger.Memory.{Ptr, Text, Cmd, pure, ◌>>=◌}
use slogger.Playlist.FileName.{text_eq}
use slogger.Playlist.File.Reading.{room}

-- An addition comes with the blocks that `malloc` returns in it.
pub data Call : Type 0 where
  append prepend : Blocks → Text → Call
  remove : Text → Call
  swap : (next : Bool) → Text → Call
  display : Call
  turn_page : (next : Bool) → Call
  show_page : Call

pub data Reply : Type 0 where
  added : Reply
  success : Bool → Reply
  lines : List Text → Reply

-- The pointers of the caller: `*filelist`, `*pagehead` and `*selnode`.
pub record Handles : Type 0 where
  pub list : Ptr
  pub page : Ptr
  pub sel : Ptr

pub perform : ℕ → Call → Handles → Cmd (Reply × Handles)
perform k (append b path) h = do
  list ← add_last k b h.list path
  pure (added, record h { list = list })
perform k (prepend b path) h = do
  list ← add_front k b h.list path
  pure (added, record h { list = list })
perform k (remove path) h = do
  r ← remove_path k h.list h.page path h.list
  pure (success r.done, record h { list = r.list; page = r.page })
perform k (swap next path) h = do
  (ok, sel) ← swap_path k h.list path next h.sel
  pure (success ok, record h { sel = sel })
perform k display h = do paths ← display_list k h.list; pure (lines paths, h)
perform k (turn_page next) h = do
  (more, page) ← get_page h.list next h.page
  pure (success more, record h { page = page })
perform k show_page h = do paths ← display_page h.page; pure (lines paths, h)

pub performs : ℕ → List Call → Handles → Cmd (List Reply × Handles)
unfolding perform
performs k [] h = pure ([], h)
performs k (c ∷ cs) h = do (r, h') ← perform k c h; (rs, h'') ← performs k cs h'; pure (r ∷ rs, h'')

-- The paths before the first that equals the given one, that path, and those behind it.
pub record Split : Type 0 where
  pub before : List Text
  pub at : Text
  pub behind : List Text

abbrev pub under : Text → Option Split → Option Split
under t none = none
under t (some s) = some (record s { before = t ∷ s.before })

abbrev pub first_at : Text → List Text → Option Split
first_at path [] = none
first_at path (t ∷ ts) =
    let later = under t (first_at path ts) in
    if text_eq t path then some (record { before = []; at = t; behind = ts }) else later

abbrev pub all_but_last : List Text → List Text
all_but_last [] = []
all_but_last (t ∷ []) = []
all_but_last (t ∷ u ∷ us) = t ∷ all_but_last (u ∷ us)

abbrev pub front_room : List Text → List Text
front_room ts = if length ts == max_play_list_len then all_but_last ts else ts

-- The path `t` behind `us` and before `vs` goes one further back.
abbrev pub moved_back : List Text → Text → List Text → Bool × List Text
moved_back us t [] = (false, us ++ (t ∷ []))
moved_back us t (v ∷ vs) = (true, us ++ (v ∷ t ∷ vs))

-- The path `t` behind `us` and before `vs` goes one further to the front.
abbrev pub moved_up : List Text → Text → List Text → Bool × List Text
moved_up [] t vs = (false, t ∷ vs)
moved_up (u ∷ []) t vs = (true, t ∷ u ∷ vs)
moved_up (u ∷ u' ∷ us) t vs = let (ok, ts) = moved_up (u' ∷ us) t vs in (ok, u ∷ ts)

-- Where `*pagehead` points: nowhere, at the node at an index, or at a node that has been freed.
pub data Mark : Type 0 where
  nowhere lost : Mark
  at_index : ℕ → Mark

abbrev pub dropped : Mark → Mark
dropped nowhere = nowhere
dropped lost = lost
dropped (at_index zero) = lost
dropped (at_index (suc i)) = at_index i

-- After an addition to a list of `n` tracks: a full list loses its first, or its last one.
abbrev pub mark_append : ℕ → Mark → Mark
mark_append n mark = if n == max_play_list_len then dropped mark else mark

abbrev pub mark_prepend : ℕ → Mark → Mark
mark_prepend n nowhere = nowhere
mark_prepend n lost = lost
mark_prepend n (at_index i) =
    if n == max_play_list_len && i + 1 == n then lost else at_index (i + 1)

-- After the removal of the track behind `b` others and before `c` others.
abbrev pub mark_remove : (b c : ℕ) → Mark → Mark
mark_remove b c nowhere = nowhere
mark_remove b c lost = lost
mark_remove b c (at_index i) =
    if i == b
    then (if c == 0 then at_index (b - 1) else at_index b)
    else if ltb b i
    then at_index (i - 1)
    else at_index i

-- What the caller knows of a play list: its paths, and where its page begins.
pub record View : Type 0 where
  pub paths : List Text
  pub mark : Mark

abbrev pub removed : View → Option Split → Option (Reply × View)
removed v none = some (success false, v)
removed v (some s) =
    if length (s.before ++ s.behind) == 0
    then none
    else some (
      success true,
      record {
        paths = s.before ++ s.behind;
        mark = mark_remove (length s.before) (length s.behind) v.mark;
      },
    )

abbrev pub swapped : Bool → List Text → Option Split → Bool × List Text
swapped next ts none = (false, ts)
swapped true ts (some s) = moved_back s.before s.at s.behind
swapped false ts (some s) = moved_up s.before s.at s.behind

abbrev pub turned : ℕ → Bool × ℕ → Mark
turned n x = if n == 0 then nowhere else at_index x.1

-- What a call is on the paths; `none` where the call is undefined.
pub on_paths : Call → View → Option (Reply × View)
on_paths (append b path) v = some (
  added,
  record { paths = room v.paths ++ (path ∷ []); mark = mark_append (length v.paths) v.mark },
)
on_paths (prepend b path) v = elim v.paths [
  | [] ↦ none
  | t ∷ ts ↦ some (
    added,
    record { paths = path ∷ front_room v.paths; mark = mark_prepend (length v.paths) v.mark },
  )
]
on_paths (remove path) v = removed v (first_at path v.paths)
on_paths (swap next path) v =
    let (ok, us) = swapped next v.paths (first_at path v.paths) in
    some (success ok, record v { paths = us })
on_paths display v = some (lines v.paths, v)
on_paths (turn_page next) v = elim v.mark [
  | lost ↦ none
  | nowhere ↦
      let x = turn (length v.paths) next none in
      some (success x.0, record v { mark = turned (length v.paths) x })
  | at_index i ↦
      let x = turn (length v.paths) next (some i) in
      some (success x.0, record v { mark = turned (length v.paths) x })
]
on_paths show_page v = elim v.mark [
  | lost ↦ none
  | nowhere ↦ some (lines [], v)
  | at_index i ↦ some (lines (take page_len (drop i v.paths)), v)
]

abbrev pub with_reply : Reply → Option (List Reply × View) → Option (List Reply × View)
with_reply r none = none
with_reply r (some (rs, v)) = some (r ∷ rs, v)

pub all_on_paths : List Call → View → Option (List Reply × View)
unfolding on_paths
all_on_paths [] v = some ([], v)
all_on_paths (c ∷ cs) v = elim (on_paths c v) [
  | none ↦ none
  | some x ↦ with_reply x.0 (all_on_paths cs x.1)
]
