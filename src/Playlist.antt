-- ===== src/Playlist.antt =====
-- The functions of playlinklist.c on the heap of Memory.antt. A function that updates a pointer
-- variable of its caller (`*filelist`, `*pagehead`, `*selnode`) returns the new value. A loop over
-- the list takes fuel, one unit for each test of its condition. `UNIQUE` is not defined.
pub mod FileName
pub mod Entries
pub mod Unlink
pub mod Strings
pub mod Remove
pub mod Index
pub mod Footprint
pub mod Freed
pub mod Owned
pub mod Walks
pub mod Page
pub mod Swap
pub mod New
pub mod LinkLast
pub mod Append
pub mod DropLast
pub mod Prepend
pub mod Display
pub mod Delete
pub mod Content
pub mod Bounds
pub mod Find
pub mod File
pub mod Calls
mod Tests
use slogger.Base.{
  ℕ, zero, suc, ◌+◌, ◌-◌, Bool, true, false, not, ◌&&◌, List, [], ◌∷◌, ◌++◌, ◌==◌, ltb,
  if◌then◌else◌,
}
use slogger.Memory.{
  Ptr, null, Text, Node, cell, Memory, Cmd, out_of_fuel, pure, ◌>>=◌, ◌>>◌, load, set_next, set_prv,
  set_payload, read, free_node, free_text, new_node, new_text,
}
use FileName.{extract_file_name, text_eq}

abbrev pub page_len : ℕ
page_len = 5

abbrev pub max_play_list_len : ℕ
max_play_list_len = 16

-- What the three calls of `malloc` for a new node returned.
pub record Blocks : Type 0 where
  pub node : Ptr
  pub path : Ptr
  pub file : Ptr

-- `deleteList`.
pub delete_list : ℕ → Ptr → Cmd (Unit {0})
delete_list zero curr = λ _. out_of_fuel
delete_list (suc k) curr =
    if curr == null
    then pure tt
    else do n ← load curr; delete_list k n.next; free_text n.file; free_text n.path; free_node curr

-- `displaylist`: the paths that it prints, in order.
pub display_list : ℕ → Ptr → Cmd (List Text)
display_list zero list = λ _. out_of_fuel
display_list (suc k) list =
    if list == null
    then pure []
    else do n ← load list; line ← read n.path; lines ← display_list k n.next; pure (line ∷ lines)

-- `displayPage`: recursion on the rounds left until `PageListLen == ++nCount`.
display_rounds : ℕ → Ptr → Cmd (List Text)
display_rounds zero list = pure []
display_rounds (suc k) list =
    if list == null
    then pure []
    else do n ← load list; line ← read n.path; lines ← display_rounds k n.next; pure (line ∷ lines)

pub display_page : Ptr → Cmd (List Text)
unfolding display_rounds
display_page list = display_rounds page_len list

-- The node that every `add` makes. The path is copied before `extract_file_name` cuts the buffer of
-- the caller, which lies outside of this heap and holds `(extract_file_name path).1` afterwards.
pub make_node : Blocks → Text → (next prv : Ptr) → Cmd (Unit {0})
make_node b path next prv = do
  new_text b.path path
  new_text b.file (extract_file_name path).0
  new_node b.node (cell next b.path b.file prv)

-- The loop of `addplaylist_last`: the last node and the number of nodes.
pub last_loop : ℕ → (list prv : Ptr) → ℕ → Cmd (Ptr × ℕ)
last_loop zero list prv count = λ _. out_of_fuel
last_loop (suc k) list prv count =
    if list == null
    then pure (prv, count)
    else do n ← load list; last_loop k n.next list (count + 1)

-- Frees the first node, and returns the second.
drop_first : Ptr → Cmd Ptr
drop_first head = do
  n ← load head
  free_text n.file
  free_text n.path
  free_node head
  set_prv n.next null
  pure n.next

-- The last assignments of `addplaylist_last`: `*filelist` afterwards.
pub link_last : (prv head new : Ptr) → Cmd Ptr
link_last prv head new =
    if not (prv == null)
    then (set_next prv new >> pure head)
    else if not (head == null)
    then (set_next head new >> pure head)
    else pure new

-- `addplaylist_last`.
pub add_last : ℕ → Blocks → Ptr → Text → Cmd Ptr
unfolding last_loop drop_first make_node link_last
add_last k b list path = do
  (prv, count) ← last_loop k list null 0
  head ← (if count == max_play_list_len then drop_first list else pure list)
  make_node b path null prv
  link_last prv head b.node

-- The loop of `addplaylist_front`: the last node but one and the number of nodes.
pub front_loop : ℕ → (list before_last : Ptr) → ℕ → Cmd (Ptr × ℕ)
front_loop zero list before_last count = λ _. out_of_fuel
front_loop (suc k) list before_last count = if list == null then pure (before_last, count) else do
  n ← load list
  before ←
      (if n.next == null
        then pure before_last
        else do m ← load n.next; pure (if m.next == null then list else before_last))
  front_loop k n.next before (count + 1)

-- Frees the node behind `before_last`.
pub drop_last : Ptr → Cmd (Unit {0})
drop_last before_last = do
  n ← load before_last
  m ← load n.next
  free_text m.path
  free_text m.file
  free_node n.next
  set_next before_last null

-- `addplaylist_front`.
pub add_front : ℕ → Blocks → Ptr → Text → Cmd Ptr
unfolding front_loop drop_last make_node
add_front k b list path = do
  (before_last, count) ← front_loop k list null 0
  (if count == max_play_list_len && not (before_last == null)
      then drop_last before_last
      else pure tt)
  make_node b path list null
  set_prv list b.node
  pure b.node

-- `removeplayNode`: the result, `*filelist` and `*pagehead`.
pub record Removed : Type 0 where
  pub done : Bool
  pub list : Ptr
  pub page : Ptr

-- `*pagehead` when the node at its address goes.
next_page : (node page : Ptr) → Cmd Ptr
next_page node page =
    if not (node == page)
    then pure page
    else do n ← load page; pure (if not (n.next == null) then n.next else n.prv)

-- Takes the node `n` at an address out of the chain, and returns `*filelist`.
unlink : Node → Ptr → Cmd Ptr
unlink n list =
    if not (n.prv == null)
    then (do
      set_next n.prv n.next
      (if not (n.next == null) then set_prv n.next n.prv else pure tt)
      pure list)
    else (do set_prv n.next null; pure n.next)

pub remove_node : (list node page : Ptr) → Cmd Removed
unfolding next_page unlink
remove_node list node page =
    if node == null then pure (record { done = false; list = list; page = page }) else do
      page' ← next_page node page
      n ← load node
      list' ← unlink n list
      free_text n.file
      free_text n.path
      free_node node
      pure (record { done = true; list = list'; page = page' })

-- `removeplaylist`: the first node whose path is `path`.
pub remove_path : ℕ → (list page : Ptr) → Text → Ptr → Cmd Removed
remove_path zero list page path p = λ _. out_of_fuel
remove_path (suc k) list page path p =
    if p == null then pure (record { done = false; list = list; page = page }) else do
      n ← load p
      t ← read n.path
      if text_eq t path then remove_node list p page else remove_path k list page path n.next

-- `swapplayNode`: the result and `*selnode`.
swap_next : (node : Ptr) → Node → Ptr → Cmd (Bool × Ptr)
swap_next node n sel = if n.next == null then pure (false, sel) else do
  let sel' = if sel == node then n.next else if sel == n.next then n.prv else sel
  m ← load n.next
  set_payload node m.path m.file
  set_payload n.next n.path n.file
  pure (true, sel')

swap_prv : (node : Ptr) → Node → Ptr → Cmd (Bool × Ptr)
swap_prv node n sel = if n.prv == null then pure (false, sel) else do
  let sel' = if sel == node then n.prv else if sel == n.prv then n.next else sel
  m ← load n.prv
  set_payload node m.path m.file
  set_payload n.prv n.path n.file
  pure (true, sel')

pub swap_node : Ptr → Bool → Ptr → Cmd (Bool × Ptr)
unfolding swap_next swap_prv
swap_node node next sel = do
  n ← load node
  if next then swap_next node n sel else swap_prv node n sel

-- `swapplaylist`.
pub swap_path : ℕ → Ptr → Text → Bool → Ptr → Cmd (Bool × Ptr)
swap_path zero p path next sel = λ _. out_of_fuel
swap_path (suc k) p path next sel = if p == null then pure (false, sel) else do
  n ← load p
  t ← read n.path
  if text_eq t path then swap_node p next sel else swap_path k n.next path next sel

-- `getPage`. The loop that looks for the next page: the node `PageListLen` further on, or `head`.
pub advance : ℕ → (list head : Ptr) → Cmd Ptr
advance zero list head = if list == null then pure head else pure list
advance (suc k) list head =
    if list == null then pure head else do n ← load list; advance k n.next head

-- The loop that walks over a page, forwards or backwards, recursion on the rounds left until
-- `PageListLen == nCount++`: where it stands then, or the last node that it met and `nCount`.
pub data Walk : Type 0 where
  full : Ptr → Walk
  short : (prev : Ptr) → (count : ℕ) → Walk

pub walk : ℕ → Bool → (list prev : Ptr) → ℕ → Cmd Walk
walk zero next list prev count = if list == null then pure (short prev count) else pure (full list)
walk (suc k) next list prev count =
    if list == null
    then pure (short prev count)
    else do n ← load list; walk k next (if next then n.next else n.prv) list (count + 1)

-- `prev = prev->prv`, at most `k` times.
pub back_up : ℕ → Ptr → Cmd Ptr
back_up zero prev = pure prev
back_up (suc k) prev = do n ← load prev; if n.prv == null then pure prev else back_up k n.prv

-- What follows the loop: the result and `*pagehead`.
settle : Bool → (head page : Ptr) → Walk → Cmd (Bool × Ptr)
settle next head page (full list) = pure (true, (if next then head else list))
settle next head page (short prev count) =
    let last = (if next then head else prev) in
    if last == null
    then pure (false, page)
    else do p ← back_up (page_len - count) last; pure (false, p)

pub get_page : (playlist : Ptr) → Bool → (page : Ptr) → Cmd (Bool × Ptr)
get_page playlist next page = do
  head ←
      (if page == null
        then pure playlist
        else if next
        then advance page_len page page
        else pure page)
  w ← walk page_len next head null 0
  settle next head page w
