-- ===== src/Playlist/Footprint.antt =====
-- What the functions of playlinklist.h allocate: the blocks of `malloc` that they are given, and
-- nothing else.
use slogger.Base.{ℕ, zero, suc, ◌+◌, ◌≢◌, Bool, ◌&&◌, not, ◌==◌}
use slogger.Memory.{Ptr, null, Text, Node}
use slogger.Memory.Keeps.{
  Spot, node_at, text_at, Keeps, bind-Keeps, if-Keeps, load-Keeps, set_next-Keeps, set_prv-Keeps,
  set_payload-Keeps, free_node-Keeps, free_text-Keeps, new_node-Keeps, new_text-Keeps,
}
use slogger.Playlist.{
  Blocks, make_node, last_loop, drop_first, link_last, add_last, front_loop, drop_last, add_front,
  next_page, unlink, remove_node, swap_next, swap_prv, swap_node, max_play_list_len,
}
use slogger.Playlist.FileName.{extract_file_name}

-- The place is none of the blocks.
pub record Elsewhere (s : Spot) (b : Blocks) : Type 0 where
  pub node : s ≢ node_at b.node
  pub path : s ≢ text_at b.path
  pub file : s ≢ text_at b.file

module _ (s : Spot) where
  pub make_node-Keeps :
      (b : Blocks) (path : Text) (next prv : Ptr)
      → Elsewhere s b
      → Keeps s (make_node b path next prv)
  unfolding make_node
  make_node-Keeps b path next prv a = bind-Keeps s _ _ (new_text-Keeps s b.path path a.path) (λ _.
      bind-Keeps s _ _ (new_text-Keeps s b.file (extract_file_name path).0 a.file)
        (λ _. new_node-Keeps s b.node _ a.node))

  last_loop-Keeps : (k : ℕ) (list prv : Ptr) (count : ℕ) → Keeps s (last_loop k list prv count)
  unfolding last_loop
  last_loop-Keeps zero list prv count = λ m e. tt
  last_loop-Keeps (suc k) list prv count =
      if-Keeps s (list == null) _ _ (λ m e. e)
        (bind-Keeps s _ _ (load-Keeps s list) (λ n. last_loop-Keeps k n.next list (count + 1)))

  drop_first-Keeps : (head : Ptr) → Keeps s (drop_first head)
  unfolding drop_first
  drop_first-Keeps head = bind-Keeps s _ _ (load-Keeps s head) (λ n.
      bind-Keeps s _ _ (free_text-Keeps s n.file) (λ _.
        bind-Keeps s _ _ (free_text-Keeps s n.path) (λ _.
          bind-Keeps s _ _ (free_node-Keeps s head)
            (λ _. bind-Keeps s _ _ (set_prv-Keeps s n.next null) (λ _ m' e. e)))))

  pub link_last-Keeps : (prv head new : Ptr) → Keeps s (link_last prv head new)
  unfolding link_last
  link_last-Keeps prv head new =
      if-Keeps s (not (prv == null)) _ _ (bind-Keeps s _ _ (set_next-Keeps s prv new) (λ _ m' e. e))
        (if-Keeps s (not (head == null)) _ _
          (bind-Keeps s _ _ (set_next-Keeps s head new) (λ _ m' e. e)) (λ m e. e))

  pub add_last-Keeps :
      (k : ℕ) (b : Blocks) (list : Ptr) (path : Text)
      → Elsewhere s b
      → Keeps s (add_last k b list path)
  unfolding add_last
  add_last-Keeps k b list path a = bind-Keeps s _ _ (last_loop-Keeps k list null 0) (λ x.
      bind-Keeps s _ _
        (if-Keeps s (x.1 == max_play_list_len) _ _ (drop_first-Keeps list) (λ m e. e))
        (λ head.
          bind-Keeps s _ _ (make_node-Keeps b path null x.0 a)
            (λ _. link_last-Keeps x.0 head b.node)))

  front_loop-Keeps :
      (k : ℕ) (list before_last : Ptr) (count : ℕ) → Keeps s (front_loop k list before_last count)
  unfolding front_loop
  front_loop-Keeps zero list before_last count = λ m e. tt
  front_loop-Keeps (suc k) list before_last count =
      if-Keeps s (list == null) _ _ (λ m e. e)
        (bind-Keeps s _ _ (load-Keeps s list) (λ n.
          bind-Keeps s _ _
            (if-Keeps s (n.next == null) _ _ (λ m e. e)
              (bind-Keeps s _ _ (load-Keeps s n.next) (λ m m' e. e)))
            (λ before. front_loop-Keeps k n.next before (count + 1))))

  drop_last-Keeps : (before_last : Ptr) → Keeps s (drop_last before_last)
  unfolding drop_last
  drop_last-Keeps before_last = bind-Keeps s _ _ (load-Keeps s before_last) (λ n.
      bind-Keeps s _ _ (load-Keeps s n.next) (λ m. bind-Keeps s _ _ (free_text-Keeps s m.path) (λ _.
        bind-Keeps s _ _ (free_text-Keeps s m.file) (λ _.
          bind-Keeps s _ _ (free_node-Keeps s n.next) (λ _. set_next-Keeps s before_last null)))))

  pub add_front-Keeps :
      (k : ℕ) (b : Blocks) (list : Ptr) (path : Text)
      → Elsewhere s b
      → Keeps s (add_front k b list path)
  unfolding add_front
  add_front-Keeps k b list path a = bind-Keeps s _ _ (front_loop-Keeps k list null 0) (λ x.
      bind-Keeps s _ _
        (if-Keeps s (x.1 == max_play_list_len && not (x.0 == null)) _ _ (drop_last-Keeps x.0)
          (λ m e. e))
        (λ _.
          bind-Keeps s _ _ (make_node-Keeps b path list null a)
            (λ _. bind-Keeps s _ _ (set_prv-Keeps s list b.node) (λ _ m' e. e))))

  next_page-Keeps : (node page : Ptr) → Keeps s (next_page node page)
  unfolding next_page
  next_page-Keeps node page =
      if-Keeps s (not (node == page)) _ _ (λ m e. e)
        (bind-Keeps s _ _ (load-Keeps s page) (λ n m' e. e))

  unlink-Keeps : (n : Node) (list : Ptr) → Keeps s (unlink n list)
  unfolding unlink
  unlink-Keeps n list =
      if-Keeps s (not (n.prv == null)) _ _
        (bind-Keeps s _ _ (set_next-Keeps s n.prv n.next) (λ _.
          bind-Keeps s _ _
            (if-Keeps s (not (n.next == null)) _ _ (set_prv-Keeps s n.next n.prv) (λ m e. e))
            (λ _ m' e. e)))
        (bind-Keeps s _ _ (set_prv-Keeps s n.next null) (λ _ m' e. e))

  pub remove_node-Keeps : (list node page : Ptr) → Keeps s (remove_node list node page)
  unfolding remove_node
  remove_node-Keeps list node page =
      if-Keeps s (node == null) _ _ (λ m e. e)
        (bind-Keeps s _ _ (next_page-Keeps node page) (λ page'.
          bind-Keeps s _ _ (load-Keeps s node) (λ n.
            bind-Keeps s _ _ (unlink-Keeps n list) (λ list'.
              bind-Keeps s _ _ (free_text-Keeps s n.file) (λ _.
                bind-Keeps s _ _ (free_text-Keeps s n.path)
                  (λ _. bind-Keeps s _ _ (free_node-Keeps s node) (λ _ m' e. e)))))))

  swap_next-Keeps : (node : Ptr) (n : Node) (sel : Ptr) → Keeps s (swap_next node n sel)
  unfolding swap_next
  swap_next-Keeps node n sel =
      if-Keeps s (n.next == null) _ _ (λ m e. e)
        (bind-Keeps s _ _ (load-Keeps s n.next) (λ m.
          bind-Keeps s _ _ (set_payload-Keeps s node m.path m.file)
            (λ _. bind-Keeps s _ _ (set_payload-Keeps s n.next n.path n.file) (λ _ m' e. e))))

  swap_prv-Keeps : (node : Ptr) (n : Node) (sel : Ptr) → Keeps s (swap_prv node n sel)
  unfolding swap_prv
  swap_prv-Keeps node n sel =
      if-Keeps s (n.prv == null) _ _ (λ m e. e)
        (bind-Keeps s _ _ (load-Keeps s n.prv) (λ m.
          bind-Keeps s _ _ (set_payload-Keeps s node m.path m.file)
            (λ _. bind-Keeps s _ _ (set_payload-Keeps s n.prv n.path n.file) (λ _ m' e. e))))

  pub swap_node-Keeps : (node : Ptr) (next : Bool) (sel : Ptr) → Keeps s (swap_node node next sel)
  unfolding swap_node
  swap_node-Keeps node next sel =
      bind-Keeps s _ _ (load-Keeps s node)
        (λ n. if-Keeps s next _ _ (swap_next-Keeps node n sel) (swap_prv-Keeps node n sel))
