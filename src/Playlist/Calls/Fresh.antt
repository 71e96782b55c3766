-- ===== src/Playlist/Calls/Fresh.antt =====
-- Blocks that `malloc` returns are not in use, hence fresh for the list of the memory.
use slogger.Base.{
  ap, sym, ◌∙◌, ==-ne, ◌≡◌, refl, ◌≢◌, Bool, true, false, none, List, [], ◌∷◌, arith, ◌==◌,
  if◌then◌else◌, length,
}
use slogger.Memory.{Ptr, null, Text, Node, Store, Memory}
use slogger.Memory.Update.{has, some_ne}
use slogger.Playlist.{Blocks, max_play_list_len}
use slogger.Playlist.Entries.{Entry, IsPlaylist, addrs, strings, Seg, Allocated}
use slogger.Playlist.New.{IsFresh}
use slogger.Playlist.Append.{rest, kept_last}
use slogger.Playlist.DropLast.{all_but_last}
use slogger.Playlist.Prepend.{kept_front}

-- What `malloc` promises: blocks that are not `NULL`, not in use, and apart from one another.
pub record Unused (b : Blocks) (m : Memory) : Type 0 where
  pub node_ne : b.node ≢ null
  pub path_ne : b.path ≢ null
  pub file_ne : b.file ≢ null
  pub two : b.path ≢ b.file
  pub node : m.node b.node ≡ none
  pub path : m.text b.path ≡ none
  pub file : m.text b.file ≡ none

not_in : (p q : Ptr) (qs : List Ptr) → p ≢ q → has p qs ≡ false → has p (q ∷ qs) ≡ false
not_in p q qs ne out = rw (==-ne p q ne) out

out_of : (p q : Ptr) (qs : List Ptr) → has p (q ∷ qs) ≡ false → (p ≢ q) × (has p qs ≡ false)
out_of p q qs out = ground arith

no_node :
    (h : Store Node) (prv stop p : Ptr) (xs : List Entry)
    → Seg h prv xs stop
    → h p ≡ none
    → has p (addrs xs) ≡ false
no_node h prv stop p [] s e = refl
no_node h prv stop p (x ∷ xs) (here, s) e =
    not_in p x.addr (addrs xs) (λ same. some_ne here (ap h (sym same) ∙ e))
      (no_node h x.addr stop p xs s e)

no_text :
    (t : Store Text) (p : Ptr) (ps : List Ptr) → Allocated t ps → t p ≡ none → has p ps ≡ false
no_text t p [] a e = refl
no_text t p (q ∷ qs) (here, a) e =
    not_in p q qs (λ same. here (ap t (sym same) ∙ e)) (no_text t p qs a e)

pub Unused-IsFresh :
    {m : Memory} {head : Ptr} {b : Blocks} (xs : List Entry)
    → IsPlaylist m head xs
    → Unused b m
    → IsFresh b xs
Unused-IsFresh {m} xs is u = record {
  node_ne = u.node_ne;
  path_ne = u.path_ne;
  file_ne = u.file_ne;
  two = u.two;
  node_new = no_node m.node null null _ xs is.seg u.node;
  path_new = no_text m.text _ (strings xs) is.owned u.path;
  file_new = no_text m.text _ (strings xs) is.owned u.file;
}

-- What is not in a list is not in what is left of it.
Stays : List Entry → List Entry → Type 0
Stays xs ys =
    (p : Ptr)
    → (has p (addrs xs) ≡ false → has p (addrs ys) ≡ false)
      × (has p (strings xs) ≡ false → has p (strings ys) ≡ false)

Stays-IsFresh : {b : Blocks} {xs ys : List Entry} → Stays xs ys → IsFresh b xs → IsFresh b ys
unfolding Stays
Stays-IsFresh st f = record {
  node_ne = f.node_ne;
  path_ne = f.path_ne;
  file_ne = f.file_ne;
  two = f.two;
  node_new = (st _).0 f.node_new;
  path_new = (st _).1 f.path_new;
  file_new = (st _).1 f.file_new;
}

rest-Stays : (xs : List Entry) → Stays xs (rest xs)
unfolding Stays
rest-Stays [] p = (λ e. e, λ e. e)
rest-Stays (x ∷ xs) p = (
  λ e. (out_of p x.addr (addrs xs) e).1,
  λ e. (out_of p x.file (strings xs) (out_of p x.path (x.file ∷ strings xs) e).1).1,
)

all_but_last-Stays : (xs : List Entry) → Stays xs (all_but_last xs)
unfolding Stays
all_but_last-Stays [] p = (λ e. e, λ e. e)
all_but_last-Stays (x ∷ []) p = (λ e. refl, λ e. refl)
all_but_last-Stays (x ∷ y ∷ zs) p =
    let (a, s) = all_but_last-Stays (y ∷ zs) p in
    (
      λ e.
          let (ne, out) = out_of p x.addr (addrs (y ∷ zs)) e in
          not_in p x.addr (addrs (all_but_last (y ∷ zs))) ne (a out),
      λ e.
          let (ne, out) = out_of p x.path (x.file ∷ strings (y ∷ zs)) e in
          let (ne', out') = out_of p x.file (strings (y ∷ zs)) out in
          not_in p x.path (x.file ∷ strings (all_but_last (y ∷ zs))) ne
            (not_in p x.file (strings (all_but_last (y ∷ zs))) ne' (s out')),
    )

same-Stays : (xs : List Entry) → Stays xs xs
unfolding Stays
same-Stays xs p = (λ e. e, λ e. e)

pick :
    (b : Bool) (xs ys zs : List Entry) → Stays xs ys → Stays xs zs → Stays xs (if b then ys else zs)
pick true xs ys zs a b = a
pick false xs ys zs a b = b

module _ {m : Memory} {head : Ptr} {b : Blocks} (xs : List Entry) (is : IsPlaylist m head xs)
    (u : Unused b m) where
  pub kept_last-IsFresh : IsFresh b (kept_last xs)
  kept_last-IsFresh =
      Stays-IsFresh
        (pick (length xs == max_play_list_len) xs (rest xs) xs (rest-Stays xs) (same-Stays xs))
        (Unused-IsFresh xs is u)

  pub kept_front-IsFresh : IsFresh b (kept_front xs)
  kept_front-IsFresh =
      Stays-IsFresh
        (pick (length xs == max_play_list_len) xs (all_but_last xs) xs (all_but_last-Stays xs)
          (same-Stays xs))
        (Unused-IsFresh xs is u)
