-- ===== src/Playlist/Freed.antt =====
-- What the additions to a full list free: the node of the track that goes, and its strings.
use slogger.Base.{
  ◌≢◌, ℕ, ◌<◌, ◌≡◌, refl, Bool, true, false, some, List, [], ◌∷◌, ◌++◌, arith, ◌==◌, inl, inr,
  Bool-cases, length, sym, if◌then◌else◌, ==-ne, ◌||◌, ◌∙◌,
}
use slogger.Memory.{
  set_prv, set_next, pure, Cmd, free_text, free_node, ◌>>◌, Ptr, null, Text, Node, cell, Memory,
}
use native.Mathlib.Nat.{zero-add}
use slogger.Playlist.DropLast.{Seg-last-node, all_but_last, last_entry, snoc-eq, before_last-eq}
use slogger.Memory.Keeps.{
  Keeps, Spot, node_at, text_at, Stays, chain-Stays, after-Stays, bind-Keeps, free_text-Stays,
  free_node-Stays, free_text-Keeps, free_node-Keeps, set_next-Keeps, set_prv-Keeps,
}
use mathlib.Core.Path.{subst}
use mathlib.Core.Bool.{false≢true}
use slogger.Memory.Commands
use slogger.Memory.Update.{has, has-append, NoDup-ne}
use slogger.Playlist.{Blocks, add_last, add_front, drop_first, drop_last, max_play_list_len}
use slogger.Playlist.Entries.{
  Entry, IsPlaylist, addrs, strings, last_or, Seg-split, has-last, addrs-append, strings-append,
}
use slogger.Playlist.LinkLast.{last_loop_lem}
use slogger.Playlist.Unlink.{around}
use slogger.Playlist.Append.{kept_last}
use slogger.Playlist.Prepend.{kept_front, front_loop_lem}
use slogger.Playlist.Footprint.{Elsewhere, make_node-Keeps, link_last-Keeps}

-- The place belongs to one of the entries.
abbrev pub is_in : Spot → List Entry → Bool
is_in (node_at p) xs = has p (addrs xs)
is_in (text_at p) xs = has p (strings xs)

pub is_in-append : (s : Spot) (xs ys : List Entry) → is_in s (xs ++ ys) ≡ (is_in s xs || is_in s ys)
is_in-append (node_at p) xs ys = rw (addrs-append xs ys) (has-append p (addrs xs) (addrs ys))
is_in-append (text_at p) xs ys = rw (strings-append xs ys) (has-append p (strings xs) (strings ys))

pub is_in-cons :
    (s : Spot) (x : Entry) (xs : List Entry) → is_in s (x ∷ xs) ≡ (is_in s (x ∷ []) || is_in s xs)
is_in-cons s x xs = is_in-append s (x ∷ []) xs

is_in-none : (s : Spot) → is_in s [] ≡ false
is_in-none (node_at p) = refl
is_in-none (text_at p) = refl

pub left_of : (a b : Bool) → (a || b) ≡ true → b ≡ false → a ≡ true
left_of a b e f = ground arith

pub right_of : (a b : Bool) → (a || b) ≡ true → a ≡ false → b ≡ true
right_of a b e f = ground arith

-- The places of one entry.
pub data Place (x : Entry) : Spot → Type 0 where
  its_node : Place x (node_at x.addr)
  its_path : Place x (text_at x.path)
  its_file : Place x (text_at x.file)

pub is_in-Place : (s : Spot) (x : Entry) → is_in s (x ∷ []) ≡ true → Place x s
is_in-Place (node_at p) x i =
    let e : p ≡ x.addr = ground arith in subst (λ a. Place x (node_at a)) (sym e) its_node
is_in-Place (text_at p) x i = elim (Bool-cases (p == x.path)) [
  | inl same ↦
      let e : p ≡ x.path = ground arith in subst (λ a. Place x (text_at a)) (sym e) its_path
  | inr other ↦
      let e : p ≡ x.file = ground arith in subst (λ a. Place x (text_at a)) (sym e) its_file
]

-- A block that is freed stays free.
module _ {B : Type 0} (m : Memory) (a b c : Ptr) (k : Cmd B) where
  first_text :
      Keeps (text_at a) k → Stays (text_at a) ((do free_text a; free_text b; free_node c; k) m)
  first_text e = chain-Stays (text_at a) (free_text a m) _ (free_text-Stays a m) (λ _.
      bind-Keeps (text_at a) _ _ (free_text-Keeps (text_at a) b)
        (λ _. bind-Keeps (text_at a) _ _ (free_node-Keeps (text_at a) c) (λ _. e)))

  second_text :
      Keeps (text_at b) k → Stays (text_at b) ((do free_text a; free_text b; free_node c; k) m)
  second_text e = after-Stays (text_at b) (free_text a m) _ (λ _ m'.
      chain-Stays (text_at b) (free_text b m') _ (free_text-Stays b m')
        (λ _. bind-Keeps (text_at b) _ _ (free_node-Keeps (text_at b) c) (λ _. e)))

  the_node :
      Keeps (node_at c) k → Stays (node_at c) ((do free_text a; free_text b; free_node c; k) m)
  the_node e = after-Stays (node_at c) (free_text a m) _ (λ _ m'.
      after-Stays (node_at c) (free_text b m') _
        (λ _ m''. chain-Stays (node_at c) (free_node c m'') _ (free_node-Stays c m'') (λ _. e)))

drop_first-frees :
    (s : Spot) (m : Memory) (x : Entry) {n q : Ptr}
    → m.node x.addr ≡ some (cell n x.path x.file q)
    → Place x s
    → Stays s (drop_first x.addr m)
unfolding drop_first
drop_first-frees s m x {n} e at = rw (Commands.load-some m x.addr e) (freed s at)
  where
    rest : (s : Spot) → Keeps s (do set_prv n null; pure n)
    rest s = bind-Keeps s _ _ (set_prv-Keeps s n null) (λ _ m' e. e)

    freed :
        (s : Spot)
        → Place x s
        → Stays s
            ((do free_text x.file; free_text x.path; free_node x.addr; set_prv n null; pure n) m)
    freed s its_node = the_node m x.file x.path x.addr _ (rest (node_at x.addr))
    freed s its_path = second_text m x.file x.path x.addr _ (rest (text_at x.path))
    freed s its_file = first_text m x.file x.path x.addr _ (rest (text_at x.file))

drop_last-frees :
    (s : Spot) (m : Memory) (a : Ptr) (z : Entry) {w : Node} {n q : Ptr}
    → m.node a ≡ some w
    → w.next ≡ z.addr
    → m.node z.addr ≡ some (cell n z.path z.file q)
    → Place z s
    → Stays s (drop_last a m)
unfolding drop_last
drop_last-frees s m a z e next e' at =
    rw (Commands.load-some m a e, next, Commands.load-some m z.addr e') (freed s at)
  where
    freed :
        (s : Spot)
        → Place z s
        → Stays s ((do free_text z.path; free_text z.file; free_node z.addr; set_next a null) m)
    freed s its_node = the_node m z.path z.file z.addr _ (set_next-Keeps (node_at z.addr) a null)
    freed s its_path = first_text m z.path z.file z.addr _ (set_next-Keeps (text_at z.path) a null)
    freed s its_file = second_text m z.path z.file z.addr _ (set_next-Keeps (text_at z.file) a null)

-- `addplaylist_last` frees the places of the entry that it does not keep.
pub add_last-frees :
    (s : Spot) {m : Memory} {head : Ptr} (k : ℕ) (b : Blocks) (path : Text) (zs : List Entry)
    → IsPlaylist m head zs
    → length zs < k
    → Elsewhere s b
    → is_in s zs ≡ true
    → is_in s (kept_last zs) ≡ false
    → Stays s (add_last k b head path m)
unfolding add_last
add_last-frees s k b path [] is lt a i o = absurd (false≢true (sym (is_in-none s) ∙ i))
add_last-frees s k b path (x ∷ []) is lt a i o = absurd (false≢true (sym o ∙ i))
add_last-frees s {m} k b path (x ∷ y ∷ ys) is lt a i o =
    elim (Bool-cases (length (x ∷ y ∷ ys) == max_play_list_len)) [
      | inl full ↦
          let o' : is_in s (y ∷ ys) ≡ false =
            subst (λ c. is_in s (if c then y ∷ ys else x ∷ y ∷ ys) ≡ false) full o in
          let at = is_in-Place s x (
            left_of (is_in s (x ∷ [])) (is_in s (y ∷ ys)) (sym (is_in-cons s x (y ∷ ys)) ∙ i) o') in
          rw (is.first, last_loop_lem m k null (x ∷ y ∷ ys) 0 is.seg is.nodes lt, zero-add, full)
            (chain-Stays s (drop_first x.addr m) _ (drop_first-frees s m x is.seg.0 at) (λ head.
              bind-Keeps s _ _ (make_node-Keeps s b path null (last_or ys y.addr) a)
                (λ _. link_last-Keeps s (last_or ys y.addr) head b.node)))
      | inr room ↦
          let o' : is_in s (x ∷ y ∷ ys) ≡ false =
            subst (λ c. is_in s (if c then y ∷ ys else x ∷ y ∷ ys) ≡ false) room o in
          absurd (false≢true (sym o' ∙ i))
    ]

-- `addplaylist_front` frees the places of the entry that it does not keep.
pub add_front-frees :
    (s : Spot) {m : Memory} {head : Ptr} (k : ℕ) (b : Blocks) (path : Text) (zs : List Entry)
    → IsPlaylist m head zs
    → length zs < k
    → Elsewhere s b
    → is_in s zs ≡ true
    → is_in s (kept_front zs) ≡ false
    → Stays s (add_front k b head path m)
unfolding add_front
add_front-frees s k b path [] is lt a i o = absurd (false≢true (sym (is_in-none s) ∙ i))
add_front-frees s k b path (x ∷ []) is lt a i o = absurd (false≢true (sym o ∙ i))
add_front-frees s {m} {head} k b path (x ∷ y ∷ zs) is lt a i o =
    let z = last_entry x (y ∷ zs) in
    let ws = all_but_last (y ∷ zs) in
    let bl = last_or ws x.addr in
    elim (Bool-cases (length (x ∷ y ∷ zs) == max_play_list_len)) [
      | inl full ↦
          let o' : is_in s (x ∷ ws) ≡ false =
            subst (λ c. is_in s (if c then x ∷ ws else x ∷ y ∷ zs) ≡ false) full o in
          let is' = subst (IsPlaylist m head) (sym (snoc-eq x (y ∷ zs))) is in
          let i' = subst (λ l. is_in s l ≡ true) (sym (snoc-eq x (y ∷ zs))) i in
          let at = is_in-Place s z (
            right_of (is_in s (x ∷ ws)) (is_in s (z ∷ []))
              (sym (is_in-append s (x ∷ ws) (z ∷ [])) ∙ i') o') in
          let ne : bl ≢ null =
            NoDup-ne bl (addrs (x ∷ ws)) (around (x ∷ ws) z [] is'.nodes).before (has-last x ws) in
          let (front, (e, back)) = Seg-split m.node null (x ∷ ws) (z ∷ []) null is'.seg in
          let (w, el, next) = Seg-last-node m.node null x ws z.addr front in
          rw
            (
              is.first,
              front_loop_lem m k null (x ∷ y ∷ zs) null 0 is.seg is.nodes lt,
              zero-add,
              full,
              before_last-eq x y zs null,
              ==-ne bl null ne,
            )
            (chain-Stays s (drop_last bl m) _ (drop_last-frees s m bl z el next e at) (λ _.
              bind-Keeps s _ _ (make_node-Keeps s b path x.addr null a)
                (λ _. bind-Keeps s _ _ (set_prv-Keeps s x.addr b.node) (λ _ m' e. e))))
      | inr room ↦
          let o' : is_in s (x ∷ y ∷ zs) ≡ false =
            subst (λ c. is_in s (if c then x ∷ ws else x ∷ y ∷ zs) ≡ false) room o in
          absurd (false≢true (sym o' ∙ i))
    ]
