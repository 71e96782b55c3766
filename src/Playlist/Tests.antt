-- ===== src/Playlist/Tests.antt =====
-- A play list of three entries, and the theorems at it.
use slogger.Playlist.Swap.{swap_node-prv, Swapped, swap_node-next}
use slogger.Base.{◌≡◌, refl, true, false, Option, none, some, [], ◌∷◌, arith, ◌==◌, if◌then◌else◌}
use slogger.Memory.{Ptr, Text, Node, cell, Memory, done, Ensures}
use slogger.Playlist.{Blocks, remove_node, swap_node, get_page, add_last, add_front, delete_list}
use slogger.Playlist.Entries.{Entry, IsPlaylist}
use slogger.Playlist.Remove.{Removal, remove_node-Removal}
use slogger.Playlist.Page.{get_page_refines}
use slogger.Playlist.Prepend.{add_front-Added}
use slogger.Playlist.Delete.{Deleted, delete_list_lem}
use slogger.Playlist.New.{IsFresh, Added, entry}
use slogger.Playlist.Append.{add_last-Added}
use slogger.Playlist.FileName.{extract_file_name}
use slogger.Playlist.FileName.Cut.{extract_file_name_lem}

abbrev one : Entry
one = record { addr = 1; path = 11; file = 21 }

abbrev two : Entry
two = record { addr = 2; path = 12; file = 22 }

abbrev three : Entry
three = record { addr = 3; path = 13; file = 23 }

abbrev nodes : Ptr → Option Node
nodes p =
    if p == 1
    then some (cell 2 11 21 0)
    else if p == 2
    then some (cell 3 12 22 1)
    else if p == 3
    then some (cell 0 13 23 2)
    else none

abbrev texts : Ptr → Option Text
texts p =
    if p == 11
    then some (b'a' ∷ [])
    else if p == 12
    then some (b'b' ∷ [])
    else if p == 13
    then some (b'c' ∷ [])
    else if p == 21
    then some []
    else if p == 22
    then some []
    else if p == 23
    then some []
    else none

abbrev memory : Memory
memory = record { node = nodes; text = texts }

memory-IsPlaylist : IsPlaylist memory 1 (one ∷ two ∷ three ∷ [])
memory-IsPlaylist = record {
  first = refl;
  seg = (refl, (refl, (refl, tt)));
  nodes = ground arith;
  texts = ground arith;
  owned = ground arith;
}

remove_node-Removal_example :
    Ensures (Removal memory (one ∷ []) two (three ∷ []) 2) (remove_node 1 2 2 memory)
remove_node-Removal_example =
    remove_node-Removal (one ∷ []) two (three ∷ []) memory-IsPlaylist 2 (λ e. cc)

get_page_refines_example : get_page 1 true 2 memory ≡ done (false, 1) memory
get_page_refines_example =
    get_page_refines (one ∷ two ∷ three ∷ []) true (some 1) memory-IsPlaylist (omega arith)

swap_node-next_example :
    Ensures (Swapped memory 1 [] one two (three ∷ []) 2) (swap_node 1 true 1 memory)
swap_node-next_example = swap_node-next [] one two (three ∷ []) memory-IsPlaylist 1

swap_node-prv_example :
    Ensures (Swapped memory 1 [] one two (three ∷ []) 3) (swap_node 2 false 1 memory)
swap_node-prv_example = swap_node-prv [] one two (three ∷ []) memory-IsPlaylist 1

abbrev blocks : Blocks
blocks = record { node = 4; path = 14; file = 24 }

abbrev song : Text
song = b'd' ∷ b'/' ∷ b's' ∷ b'.' ∷ b'm' ∷ b'p' ∷ b'3' ∷ []

blocks-IsFresh : IsFresh blocks (one ∷ two ∷ three ∷ [])
blocks-IsFresh = record {
  node_ne = ground arith;
  path_ne = ground arith;
  file_ne = ground arith;
  two = ground arith;
  node_new = refl;
  path_new = refl;
  file_new = refl;
}

add_last-Added_example :
    Ensures
      (Added memory blocks song (one ∷ two ∷ three ∷ []) (one ∷ two ∷ three ∷ entry blocks ∷ []))
      (add_last 4 blocks 1 song memory)
add_last-Added_example =
    add_last-Added 4 blocks song (one ∷ two ∷ three ∷ []) memory-IsPlaylist (omega arith)
      blocks-IsFresh

add_front-Added_example :
    Ensures
      (Added memory blocks song (one ∷ two ∷ three ∷ []) (entry blocks ∷ one ∷ two ∷ three ∷ []))
      (add_front 4 blocks 1 song memory)
add_front-Added_example =
    add_front-Added 4 blocks song one (two ∷ three ∷ []) memory-IsPlaylist (omega arith)
      blocks-IsFresh

delete_list_lem_example : Ensures (Deleted memory (one ∷ two ∷ three ∷ [])) (delete_list 4 1 memory)
delete_list_lem_example = delete_list_lem 4 (one ∷ two ∷ three ∷ []) memory-IsPlaylist (omega arith)

extract_file_name_lem_example : extract_file_name song ≡ (b's' ∷ [], b'd' ∷ b'/' ∷ b's' ∷ [])
extract_file_name_lem_example =
    extract_file_name_lem (b'd' ∷ []) b'/' (b's' ∷ []) (b'.' ∷ b'm' ∷ b'p' ∷ b'3' ∷ [])
      (omega arith) refl (ground arith) (omega arith) refl
