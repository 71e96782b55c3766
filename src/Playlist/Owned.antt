-- ===== src/Playlist/Owned.antt =====
-- What is allocated is what the play list owns, and what others do: no operation leaks a block.
use slogger.Base.{
  ◌≢◌, ℕ, ◌<◌, ◌≡◌, refl, Bool, true, false, List, [], ◌∷◌, ◌++◌, arith, inl, inr, Bool-cases,
  length, sym, ap, ◌||◌, ◌∙◌,
}
use mathlib.Core.Bool.{false≢true}
use slogger.Memory.{Ptr, Text, Memory}
use slogger.Memory.Keeps.{Spot, node_at, text_at, Free, Later, Later-all}
use slogger.Playlist.{Blocks, Removed, add_last, add_front, remove_node, swap_node}
use slogger.Playlist.Entries.{Entry, IsPlaylist}
use slogger.Playlist.New.{entry}
use slogger.Playlist.Append.{kept_last}
use slogger.Playlist.Prepend.{kept_front}
use slogger.Playlist.Remove.{Removal}
use slogger.Playlist.Swap.{exchanged}
use slogger.Playlist.Footprint.{
  Elsewhere, add_last-Keeps, add_front-Keeps, remove_node-Keeps, swap_node-Keeps,
}
use slogger.Playlist.Freed.{
  is_in, is_in-append, is_in-cons, Place, its_node, its_path, its_file, is_in-Place, add_last-frees,
  add_front-frees,
}

-- A place that the list does not own, and others do not.
pub record Outside (others : Spot → Bool) (xs : List Entry) : Type 0 where
  pub spot : Spot
  pub out : is_in spot xs ≡ false
  pub other : others spot ≡ false

-- Every block that is allocated is a node or a string of the list, or one of the others.
abbrev pub Owns : (Spot → Bool) → Memory → List Entry → Type 0
Owns others m xs = (x : Outside others xs) → Free x.spot m

or_false : (a b : Bool) → (a || b) ≡ false → (a ≡ false) × (b ≡ false)
or_false true b e = absurd (false≢true (sym e))
or_false false b e = (refl, e)

in_one : (x : Entry) (s : Spot) → Place x s → is_in s (x ∷ []) ≡ true
in_one x s its_node = ground arith
in_one x s its_path = ground arith
in_one x s its_file = ground arith

elsewhere : (s : Spot) (b : Blocks) → is_in s (entry b ∷ []) ≡ false → Elsewhere s b
elsewhere s b out = record {
  node = λ e. apart (node_at b.node) its_node e;
  path = λ e. apart (text_at b.path) its_path e;
  file = λ e. apart (text_at b.file) its_file e;
}
  where
    apart : (t : Spot) → Place (entry b) t → s ≢ t
    apart t at e =
        false≢true (sym out ∙ (ap (λ u. is_in u (entry b ∷ [])) e ∙ in_one (entry b) t at))

module _ {o : Spot → Bool} {m : Memory} where
  pub remove_node-Owns :
      (list node page : Ptr) (xs : List Entry)
      → Owns o m xs
      → Later (λ _ m'. Owns o m' xs) (remove_node list node page m)
  remove_node-Owns list node page xs only =
      Later-all (λ x _ m'. Free x.spot m') (remove_node list node page m)
        (λ x. remove_node-Keeps x.spot list node page m (only x))

  pub swap_node-Owns :
      (node : Ptr) (next : Bool) (sel : Ptr) (xs : List Entry)
      → Owns o m xs
      → Later (λ _ m'. Owns o m' xs) (swap_node node next sel m)
  swap_node-Owns node next sel xs only =
      Later-all (λ x _ m'. Free x.spot m') (swap_node node next sel m)
        (λ x. swap_node-Keeps x.spot node next sel m (only x))

module _ {o : Spot → Bool} {m : Memory} {head : Ptr} where
  pub add_last-Owns :
      (k : ℕ) (b : Blocks) (path : Text) (zs : List Entry)
      → IsPlaylist m head zs
      → length zs < k
      → Owns o m zs
      → Later (λ _ m'. Owns o m' (kept_last zs ++ (entry b ∷ []))) (add_last k b head path m)
  add_last-Owns k b path zs is lt only =
      Later-all (λ x _ m'. Free x.spot m') (add_last k b head path m)
        (λ x.
          let s = x.spot in
          let (kept, new) =
            or_false (is_in s (kept_last zs)) (is_in s (entry b ∷ []))
              (sym (is_in-append s (kept_last zs) (entry b ∷ [])) ∙ x.out) in
          elim (Bool-cases (is_in s zs)) [
            | inl i ↦ add_last-frees s k b path zs is lt (elsewhere s b new) i kept
            | inr out ↦
                add_last-Keeps s k b head path (elsewhere s b new) m
                  (only (record { spot = s; out = out; other = x.other }))
          ])

  pub add_front-Owns :
      (k : ℕ) (b : Blocks) (path : Text) (zs : List Entry)
      → IsPlaylist m head zs
      → length zs < k
      → Owns o m zs
      → Later (λ _ m'. Owns o m' (entry b ∷ kept_front zs)) (add_front k b head path m)
  add_front-Owns k b path zs is lt only =
      Later-all (λ x _ m'. Free x.spot m') (add_front k b head path m)
        (λ x.
          let s = x.spot in
          let (new, kept) =
            or_false (is_in s (entry b ∷ [])) (is_in s (kept_front zs))
              (sym (is_in-cons s (entry b) (kept_front zs)) ∙ x.out) in
          elim (Bool-cases (is_in s zs)) [
            | inl i ↦ add_front-frees s k b path zs is lt (elsewhere s b new) i kept
            | inr out ↦
                add_front-Keeps s k b head path (elsewhere s b new) m
                  (only (record { spot = s; out = out; other = x.other }))
          ])

-- The node that `removeplayNode` takes out is freed with its strings.
pub Removal-Owns :
    {o : Spot → Bool} {m m' : Memory} {xs : List Entry} {x : Entry} {ys : List Entry} {page : Ptr}
    {r : Removed}
    → Removal m xs x ys page r m'
    → Owns o m' (xs ++ (x ∷ ys))
    → Owns o m' (xs ++ ys)
Removal-Owns {m' = m'} {xs = xs} {x = x} {ys = ys} gone only z =
    let s = z.spot in
    let (front, back) = or_false (is_in s xs) (is_in s ys) (sym (is_in-append s xs ys) ∙ z.out) in
    elim (Bool-cases (is_in s (x ∷ []))) [
      | inl i ↦ freed s (is_in-Place s x i)
      | inr n ↦ only (record {
        spot = s;
        out = is_in-append s xs (x ∷ ys) ∙ rw (front, is_in-cons s x ys, n) back;
        other = z.other;
      })
    ]
  where
    freed : (s : Spot) → Place x s → Free s m'
    freed s its_node = gone.no_node
    freed s its_path = gone.no_path
    freed s its_file = gone.no_file

-- An exchange of strings keeps what is owned.
is_in-exchanged :
    (s : Spot) (xs : List Entry) (a b : Entry) (ys : List Entry)
    → is_in s (exchanged xs a b ys) ≡ false
    → is_in s (xs ++ (a ∷ b ∷ ys)) ≡ false
is_in-exchanged (node_at p) [] a b ys out = out
is_in-exchanged (text_at p) [] a b ys out = ground arith
is_in-exchanged (node_at p) (x ∷ xs) a b ys out =
    ground (arith, is_in-exchanged (node_at p) xs a b ys)
is_in-exchanged (text_at p) (x ∷ xs) a b ys out =
    ground (arith, is_in-exchanged (text_at p) xs a b ys)

pub exchanged-Owns :
    {o : Spot → Bool} {m : Memory} (xs : List Entry) (a b : Entry) (ys : List Entry)
    → Owns o m (xs ++ (a ∷ b ∷ ys))
    → Owns o m (exchanged xs a b ys)
exchanged-Owns xs a b ys only z =
    only (record { spot = z.spot; out = is_in-exchanged z.spot xs a b ys z.out; other = z.other })
