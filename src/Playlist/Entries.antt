-- ===== src/Playlist/Entries.antt =====
-- What a chain of nodes stands for: its nodes in order, each with the addresses of its strings.
use mathlib.Core.Path.{ap, sym}
use mathlib.Core.Bool.{false≢true}
use slogger.Base.{◌≡◌, refl, ◌≢◌, true, false, Option, none, some, List, [], ◌∷◌, ◌++◌, arith, ◌∙◌}
use slogger.Memory.{Ptr, null, Text, Node, cell, Store, Memory, upd, put_next, put_prv}
use slogger.Memory.Update.{has, NoDup, upd_self, upd_other}

pub record Entry : Type 0 where
  pub addr : Ptr
  pub path : Ptr
  pub file : Ptr

abbrev pub addrs : List Entry → List Ptr
addrs [] = []
addrs (x ∷ xs) = x.addr ∷ addrs xs

-- The addresses of the strings.
abbrev pub strings : List Entry → List Ptr
strings [] = []
strings (x ∷ xs) = x.path ∷ x.file ∷ strings xs

-- The first address, or `stop`; the last, or `prv`.
abbrev pub head_or : List Entry → Ptr → Ptr
head_or [] stop = stop
head_or (x ∷ _) stop = x.addr

abbrev pub last_or : List Entry → Ptr → Ptr
last_or [] prv = prv
last_or (x ∷ xs) prv = last_or xs x.addr

-- The nodes `xs` follow one another both ways, from the node `prv` to the node `stop`.
abbrev pub Seg : Store Node → Ptr → List Entry → Ptr → Type 0
Seg h prv [] stop = Unit {0}
Seg h prv (x ∷ xs) stop =
    (h x.addr ≡ some (cell (head_or xs stop) x.path x.file prv)) × Seg h x.addr xs stop

abbrev pub Allocated : Store Text → List Ptr → Type 0
Allocated t [] = Unit {0}
Allocated t (p ∷ ps) = (t p ≢ none) × Allocated t ps

-- A play list: a chain from `head` that ends in `NULL` on both sides, with nodes at distinct
-- addresses, each of which owns two strings that nothing else owns.
pub record IsPlaylist (m : Memory) (head : Ptr) (xs : List Entry) : Type 0 where
  pub first : head ≡ head_or xs null
  pub seg : Seg m.node null xs null
  pub nodes : NoDup (addrs xs)
  pub texts : NoDup (strings xs)
  pub owned : Allocated m.text (strings xs)

pub addrs-append : (xs ys : List Entry) → addrs (xs ++ ys) ≡ addrs xs ++ addrs ys
addrs-append [] ys = refl
addrs-append (x ∷ xs) ys = ap (λ l. x.addr ∷ l) (addrs-append xs ys)

pub strings-append : (xs ys : List Entry) → strings (xs ++ ys) ≡ strings xs ++ strings ys
strings-append [] ys = refl
strings-append (x ∷ xs) ys = ap (λ l. x.path ∷ x.file ∷ l) (strings-append xs ys)

pub head_or-append :
    (xs ys : List Entry) (stop : Ptr) → head_or (xs ++ ys) stop ≡ head_or xs (head_or ys stop)
head_or-append [] ys stop = refl
head_or-append (x ∷ xs) ys stop = refl

pub has-last : (x : Entry) (xs : List Entry) → has (last_or xs x.addr) (addrs (x ∷ xs)) ≡ true
has-last x [] = ground arith
has-last x (y ∷ ys) = ground (arith, has-last y ys)

module _ (h : Store Node) where
  pub Seg-append :
      (prv : Ptr) (xs ys : List Entry) (stop : Ptr)
      → Seg h prv xs (head_or ys stop)
      → Seg h (last_or xs prv) ys stop
      → Seg h prv (xs ++ ys) stop
  Seg-append prv [] ys stop s t = t
  Seg-append prv (x ∷ xs) ys stop (e, s) t =
      (rw (head_or-append xs ys stop) e, Seg-append x.addr xs ys stop s t)

  pub Seg-split :
      (prv : Ptr) (xs ys : List Entry) (stop : Ptr)
      → Seg h prv (xs ++ ys) stop
      → Seg h prv xs (head_or ys stop) × Seg h (last_or xs prv) ys stop
  Seg-split prv [] ys stop s = (tt, s)
  Seg-split prv (x ∷ xs) ys stop (e, s) =
      let (a, b) = Seg-split x.addr xs ys stop s in ((rw (← head_or-append xs ys stop) e, a), b)

  -- A write elsewhere keeps a segment.
  pub Seg-upd :
      (a : Ptr) (c : Option Node) (prv : Ptr) (xs : List Entry) (stop : Ptr)
      → has a (addrs xs) ≡ false
      → Seg h prv xs stop
      → Seg (upd h a c) prv xs stop
  Seg-upd a c prv [] stop out s = tt
  Seg-upd a c prv (x ∷ xs) stop out (e, s) =
      (upd_other h a x.addr c (ground arith) ∙ e, Seg-upd a c x.addr xs stop (ground arith) s)

  -- `p->prv = q` at the first node.
  pub Seg-put_prv :
      (prv q : Ptr) (x : Entry) (xs : List Entry) (stop : Ptr)
      → NoDup (addrs (x ∷ xs))
      → Seg h prv (x ∷ xs) stop
      → Seg (put_prv h x.addr q) q (x ∷ xs) stop
  unfolding put_prv
  Seg-put_prv prv q x xs stop d (e, s) =
      (upd_self h x.addr _ ∙ rw e, Seg-upd x.addr _ x.addr xs stop d.1 s)

  -- `p->next = q` at the last node.
  pub Seg-put_next :
      (prv q : Ptr) (x : Entry) (xs : List Entry) (stop : Ptr)
      → NoDup (addrs (x ∷ xs))
      → Seg h prv (x ∷ xs) stop
      → Seg (put_next h (last_or xs x.addr) q) prv (x ∷ xs) q
  unfolding put_next
  Seg-put_next prv q x [] stop d (e, s) = (upd_self h x.addr _ ∙ rw e, tt)
  Seg-put_next prv q x (y ∷ ys) stop d (e, s) = (
    upd_other h (last_or (y ∷ ys) x.addr) x.addr _
          (λ same. false≢true (sym d.1 ∙ (ap (λ a. has a (addrs (y ∷ ys))) same ∙ has-last y ys)))
        ∙ e,
    Seg-put_next x.addr q y ys stop d.2 s,
  )

  -- Every node of a segment is there.
  pub Seg-last :
      (prv : Ptr) (x : Entry) (xs : List Entry) (stop : Ptr)
      → Seg h prv (x ∷ xs) stop
      → h (last_or xs x.addr) ≢ none
  Seg-last prv x [] stop (e, s) = λ n. ground arith
  Seg-last prv x (y ∷ ys) stop (e, s) = Seg-last x.addr y ys stop s
