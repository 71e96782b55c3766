-- ===== src/Memory/Update.antt =====
-- Lists of addresses, and stores that are written at some of them.
use mathlib.Core.Bool.{false≢true}
use slogger.Base.{
  sym, ap, ◌∙◌, ◌≡◌, refl, ◌≢◌, Bool, true, false, ◌||◌, Option, none, some, List, [], ◌∷◌, ◌++◌,
  arith, ◌==◌,
}
use slogger.Memory.{Ptr, null, Store, Node, upd, put_next, put_prv, put_payload}

abbrev pub has : Ptr → List Ptr → Bool
has p [] = false
has p (q ∷ qs) = p == q || has p qs

-- Distinct addresses, none of them `NULL`.
abbrev pub NoDup : List Ptr → Type 0
NoDup [] = Unit {0}
NoDup (p ∷ ps) = (p ≢ null) × (has p ps ≡ false) × NoDup ps

-- No address of the one list is in the other.
abbrev pub Apart : List Ptr → List Ptr → Type 0
Apart [] qs = Unit {0}
Apart (p ∷ ps) qs = (has p qs ≡ false) × Apart ps qs

pub has-append : (p : Ptr) (xs ys : List Ptr) → has p (xs ++ ys) ≡ (has p xs || has p ys)
has-append p [] ys = refl
has-append p (x ∷ xs) ys = ground (arith, has-append p xs ys)

pub NoDup-append : (xs ys : List Ptr) → NoDup xs → NoDup ys → Apart xs ys → NoDup (xs ++ ys)
NoDup-append [] ys a b c = b
NoDup-append (x ∷ xs) ys (n, o, d) b (e, c) =
    (n, ground (arith, has-append x xs ys), NoDup-append xs ys d b c)

pub NoDup-split : (xs ys : List Ptr) → NoDup (xs ++ ys) → NoDup xs × NoDup ys × Apart xs ys
NoDup-split [] ys d = (tt, d, tt)
NoDup-split (x ∷ xs) ys (n, o, d) =
    let (a, b, c) = NoDup-split xs ys d in
    ((n, ground (arith, has-append x xs ys), a), b, (ground (arith, has-append x xs ys), c))

module _ {A : Type 0} (h : Store A) where
  pub upd_self : (p : Ptr) (c : Option A) → upd h p c p ≡ c
  unfolding upd
  upd_self p c = ground arith

  pub upd_other : (p a : Ptr) (c : Option A) → a ≢ p → upd h p c a ≡ h a
  unfolding upd
  upd_other p a c ne = ground arith

pub NoDup-ne : (p : Ptr) (ps : List Ptr) → NoDup ps → has p ps ≡ true → p ≢ null
NoDup-ne p [] d i = cc
NoDup-ne p (q ∷ qs) (n, o, d) i = ground (arith, NoDup-ne p qs d)

pub Apart-left : (p : Ptr) (ps qs : List Ptr) → Apart ps qs → has p ps ≡ true → has p qs ≡ false
Apart-left p [] qs c i = cc
Apart-left p (r ∷ ps) qs (e, c) i = ground (arith, Apart-left p ps qs c)

pub Apart-right : (p : Ptr) (ps qs : List Ptr) → Apart ps qs → has p qs ≡ true → has p ps ≡ false
Apart-right p [] qs c i = refl
Apart-right p (r ∷ ps) qs (e, c) i = ground (arith, Apart-right p ps qs c)

-- Apart from a list is apart from its two parts.
pub Apart-append : (ps qs rs : List Ptr) → Apart ps (qs ++ rs) → Apart ps qs × Apart ps rs
Apart-append [] qs rs c = (tt, tt)
Apart-append (p ∷ ps) qs rs (e, c) =
    let (a, b) = Apart-append ps qs rs c in
    ((ground (arith, has-append p qs rs), a), (ground (arith, has-append p qs rs), b))

-- A part in the middle can go.
pub NoDup-cut : (xs ys zs : List Ptr) → NoDup (xs ++ (ys ++ zs)) → NoDup (xs ++ zs)
NoDup-cut xs ys zs d =
    let (a, b, c) = NoDup-split xs (ys ++ zs) d in
    NoDup-append xs zs a (NoDup-split ys zs b).1 (Apart-append xs ys zs c).1

-- What stands in the middle is in no other part.
pub NoDup-middle :
    (p : Ptr) (xs ys zs : List Ptr)
    → NoDup (xs ++ (ys ++ zs))
    → has p ys ≡ true
    → has p (xs ++ zs) ≡ false
NoDup-middle p xs ys zs d i =
    let (a, b, c) = NoDup-split xs (ys ++ zs) d in
    rw (
      has-append p xs zs,
      Apart-right p xs ys (Apart-append xs ys zs c).0 i,
      Apart-left p ys zs (NoDup-split ys zs b).2 i,
    )

pub some_ne {ℓ} : {A : Type ℓ} {o : Option A} {a : A} → o ≡ some a → o ≢ none
some_ne e = ground arith

module _ (h : Store Node) (p q : Ptr) where
  -- A write to a field leaves every node in its place.
  pub put_next-present : (a : Ptr) → h a ≢ none → put_next h p q a ≢ none
  unfolding put_next upd
  put_next-present a here = ground arith

  pub put_prv-present : (a : Ptr) → h a ≢ none → put_prv h p q a ≢ none
  unfolding put_prv upd
  put_prv-present a here = ground arith

pub put_payload-present :
    (h : Store Node) (p q r a : Ptr) → h a ≢ none → put_payload h p q r a ≢ none
unfolding put_payload upd
put_payload-present h p q r a here = ground arith

-- A cell that is free stays free when another is freed.
pub upd-none : {A : Type 0} (h : Store A) (p a : Ptr) → h a ≡ none → upd h p none a ≡ none
unfolding upd
upd-none h p a e = ground arith

-- Two pairs beside each other can change places.
has-swap :
    (p a b c d : Ptr) (qs : List Ptr)
    → has p (a ∷ b ∷ c ∷ d ∷ qs) ≡ false
    → has p (c ∷ d ∷ a ∷ b ∷ qs) ≡ false
has-swap p a b c d qs o = ground arith

Apart-swap :
    (ps : List Ptr) (a b c d : Ptr) (qs : List Ptr)
    → Apart ps (a ∷ b ∷ c ∷ d ∷ qs)
    → Apart ps (c ∷ d ∷ a ∷ b ∷ qs)
Apart-swap [] a b c d qs t = t
Apart-swap (p ∷ ps) a b c d qs (o, t) = (has-swap p a b c d qs o, Apart-swap ps a b c d qs t)

pub NoDup-swap :
    (ps : List Ptr) (a b c d : Ptr) (qs : List Ptr)
    → NoDup (ps ++ (a ∷ b ∷ c ∷ d ∷ qs))
    → NoDup (ps ++ (c ∷ d ∷ a ∷ b ∷ qs))
NoDup-swap ps a b c d qs n =
    let (f, g, t) = NoDup-split ps (a ∷ b ∷ c ∷ d ∷ qs) n in
    NoDup-append ps (c ∷ d ∷ a ∷ b ∷ qs) f (ground arith) (Apart-swap ps a b c d qs t)

pub mem-ne : (p q : Ptr) (ps : List Ptr) → has p ps ≡ true → has q ps ≡ false → p ≢ q
mem-ne p q ps i o e = false≢true (sym o ∙ (ap (λ a. has a ps) (sym e) ∙ i))

pub Apart-one : (ps : List Ptr) (q : Ptr) → has q ps ≡ false → Apart ps (q ∷ [])
Apart-one [] q o = tt
Apart-one (p ∷ ps) q o = (ground arith, Apart-one ps q (ground arith))

pub Apart-two :
    (ps : List Ptr) (q r : Ptr) → has q ps ≡ false → has r ps ≡ false → Apart ps (q ∷ r ∷ [])
Apart-two [] q r o o' = tt
Apart-two (p ∷ ps) q r o o' = (ground arith, Apart-two ps q r (ground arith) (ground arith))
