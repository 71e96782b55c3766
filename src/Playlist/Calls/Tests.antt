-- ===== src/Playlist/Calls/Tests.antt =====
-- A run of calls on a play list of two tracks.
use slogger.Playlist.Calls.Crashes.{performs-crashes}
use slogger.Memory.Keeps.{Spot, node_at, text_at, Free}
use slogger.Playlist.Owned.{Owns}
use slogger.Playlist.Freed.{is_in}
use slogger.Base.{
  Bool, ℕ, zero, suc, ◌+◌, ◌++◌, ◌≡◌, refl, true, false, none, some, List, [], ◌∷◌, arith, ◌==◌,
  if◌then◌else◌,
}
use slogger.Memory.{
  Run, done, out_of_fuel, crash, cell, Memory, Ensures, upd, put_next, put_prv, put_payload, load,
  set_next, set_prv, set_payload, read, free_node, free_text, new_node, new_text,
}
use slogger.Playlist.Calls.{
  performs, View, at_index, turn_page, show_page, Call, append, remove, swap, display, Reply, added,
  success, lines, Handles, perform, on_paths, all_on_paths,
}
use slogger.Playlist.{
  get_page, display_page, display_rounds, walk, settle, advance, back_up, Blocks, add_last,
  remove_path, remove_node, swap_path, swap_node, display_list, last_loop, drop_first, make_node,
  link_last, next_page, unlink, swap_next, swap_prv,
}
use slogger.Playlist.FileName.{extract_file_name}
use slogger.Playlist.Calls.Named.{Named}
use slogger.Playlist.Entries.{Entry, IsPlaylist}
use slogger.Playlist.Calls.Sequence.{FreshAlong, AllReply, performs_refines}

abbrev one : Entry
one = record { addr = 1; path = 11; file = 21 }

abbrev two : Entry
two = record { addr = 2; path = 12; file = 22 }

abbrev memory : Memory
memory = record {
  node =
      λ p. if p == 1 then some (cell 2 11 21 0) else if p == 2 then some (cell 0 12 22 1) else none;
  text = λ p.
      if p == 11
      then some (b'a' ∷ [])
      else if p == 12
      then some (b'b' ∷ [])
      else if p == 21
      then some (b'a' ∷ [])
      else if p == 22
      then some (b'b' ∷ [])
      else none;
}

memory-IsPlaylist : IsPlaylist memory 1 (one ∷ two ∷ [])
memory-IsPlaylist = record {
  first = refl;
  seg = (refl, (refl, tt));
  nodes = ground arith;
  texts = ground arith;
  owned = ground arith;
}

abbrev blocks : Blocks
blocks = record { node = 3; path = 13; file = 23 }

abbrev handles : Handles
handles = record { list = 1; page = 1; sel = 1 }

-- The page begins at the node of `b` when that is removed.
abbrev calls : List Call
calls =
    append blocks (b'c' ∷ [])
    ∷ turn_page true
    ∷ swap true (b'a' ∷ [])
    ∷ swap false (b'b' ∷ [])
    ∷ remove (b'a' ∷ [])
    ∷ remove (b'x' ∷ [])
    ∷ display
    ∷ remove (b'b' ∷ [])
    ∷ show_page
    ∷ []

abbrev replies : List Reply
replies =
    added
    ∷ success false
    ∷ success true
    ∷ success false
    ∷ success true
    ∷ success false
    ∷ lines ((b'b' ∷ []) ∷ (b'c' ∷ []) ∷ [])
    ∷ success true
    ∷ lines ((b'c' ∷ []) ∷ [])
    ∷ []

abbrev before : View
before = record { paths = (b'a' ∷ []) ∷ (b'b' ∷ []) ∷ []; mark = at_index 0 }

abbrev after : View
after = record { paths = (b'c' ∷ []) ∷ []; mark = at_index 0 }

calls-defined : all_on_paths calls before ≡ some (replies, after)
unfolding all_on_paths on_paths
calls-defined = refl

calls-FreshAlong : FreshAlong 17 calls handles memory
unfolding FreshAlong perform get_page display_page display_rounds walk settle advance back_up
    add_last remove_path remove_node swap_path swap_node display_list last_loop drop_first make_node
    link_last next_page unlink swap_next swap_prv upd put_next put_prv put_payload load set_next
    set_prv set_payload read free_node free_text new_node new_text
calls-FreshAlong = (
  record {
    node_ne = λ e. cc;
    path_ne = λ e. cc;
    file_ne = λ e. cc;
    two = λ e. cc;
    node = refl;
    path = refl;
    file = refl;
  },
  (tt, (tt, (tt, (tt, (tt, (tt, (tt, (tt, tt)))))))),
)

memory-Named : Named memory.text (one ∷ two ∷ [])
unfolding extract_file_name
memory-Named = (refl, (refl, tt))

abbrev nobody : Spot → Bool
nobody s = false

memory-Owns : Owns nobody memory (one ∷ two ∷ [])
memory-Owns x = owned x.spot x.out
  where
    owned : (s : Spot) → is_in s (one ∷ two ∷ []) ≡ false → Free s memory
    owned (node_at p) out = ground arith
    owned (text_at p) out = ground arith

performs_refines_example :
    Ensures (AllReply nobody (replies, after)) (performs 17 calls handles memory)
performs_refines_example =
    performs_refines 17 calls handles (one ∷ two ∷ []) (at_index 0) nobody (omega arith)
      memory-IsPlaylist memory-Named (omega arith, refl) memory-Owns (omega arith) calls-FreshAlong
      calls-defined

-- `n` additions, with blocks at new addresses.
abbrev crowd : ℕ → List Call
crowd zero = []
crowd (suc n) =
    append (record { node = 100 + n; path = 200 + n; file = 300 + n }) (b'n' ∷ []) ∷ crowd n

-- The page begins at the first of sixteen tracks, which a further addition frees.
page_freed : performs 17 (crowd 15 ++ (show_page ∷ [])) handles memory ≡ crash
unfolding performs perform display_page display_rounds add_last last_loop drop_first make_node
    link_last upd put_next put_prv load set_next set_prv read free_node free_text new_node new_text
page_freed = refl

abbrev ends : {A : Type 0} → Run A → Bool
ends (done a m) = true
ends crash = false
ends out_of_fuel = false

page_kept : ends (performs 17 (crowd 14 ++ (show_page ∷ [])) handles memory) ≡ true
unfolding performs perform display_page display_rounds add_last last_loop drop_first make_node
    link_last upd put_next put_prv load set_next set_prv read free_node free_text new_node new_text
page_kept = refl

-- The last track cannot be removed.
abbrev to_the_last : List Call
to_the_last = swap true (b'a' ∷ []) ∷ remove (b'a' ∷ []) ∷ remove (b'b' ∷ []) ∷ display ∷ []

to_the_last-undefined : all_on_paths to_the_last before ≡ none
unfolding all_on_paths on_paths
to_the_last-undefined = refl

to_the_last-FreshAlong : FreshAlong 17 to_the_last handles memory
unfolding FreshAlong perform remove_path remove_node swap_path swap_node display_list next_page
    unlink swap_next swap_prv upd put_next put_prv put_payload load set_next set_prv set_payload
    read free_node free_text
to_the_last-FreshAlong = (tt, (tt, (tt, tt)))

performs-crashes_example : performs 17 to_the_last handles memory ≡ crash
performs-crashes_example =
    performs-crashes 17 to_the_last handles (one ∷ two ∷ []) (at_index 0) nobody (omega arith)
      memory-IsPlaylist memory-Named (omega arith, refl) memory-Owns refl (omega arith)
      to_the_last-FreshAlong (tt, (tt, (tt, (tt, tt)))) to_the_last-undefined
