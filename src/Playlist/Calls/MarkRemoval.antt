-- ===== src/Playlist/Calls/MarkRemoval.antt =====
-- Where `*pagehead` points once a track is removed.
use slogger.Playlist.Calls.Marks.{Marks, Marks-left, addr_at-left}
use native.Mathlib.Decide.{dec_lt}
use slogger.Playlist.Calls.{Mark, nowhere, lost, at_index, mark_remove}
use slogger.Base.{
  ℕ, zero, suc, ◌+◌, ◌-◌, ◌<◌, ◌≡◌, refl, ◌≢◌, true, List, [], ◌∷◌, ◌++◌, arith, ◌∙◌, sym, ap,
  length, length-append, ==-ne, ==-refl, ltb-true, ltb-false,
}
use mathlib.Core.Path.{subst}
use slogger.Memory.{Ptr, null}
use slogger.Memory.Update.{has, mem-ne}
use slogger.Playlist.Entries.{Entry, addrs, last_or}
use slogger.Playlist.Index.{addr_at}
use slogger.Playlist.Unlink.{Around}
use slogger.Playlist.Remove.{page_after}

addr_at-right : (xs ys : List Entry) (j : ℕ) → addr_at (xs ++ ys) (length xs + j) ≡ addr_at ys j
addr_at-right [] ys j = ap (addr_at ys) (omega arith)
addr_at-right (x ∷ xs) ys j =
    ap (addr_at (x ∷ (xs ++ ys))) {x = length (x ∷ xs) + j} {y = suc (length xs + j)} (omega arith)
    ∙ addr_at-right xs ys j

has-addr_at : (xs : List Entry) (i : ℕ) → i < length xs → has (addr_at xs i) (addrs xs) ≡ true
has-addr_at [] i lt = absurd (omega arith)
has-addr_at (x ∷ xs) zero lt = ground arith
has-addr_at (x ∷ xs) (suc i) lt = ground (arith, has-addr_at xs i (omega arith))

addr_at-last : (xs : List Entry) (q : Ptr) (i : ℕ) → i + 1 ≡ length xs → last_or xs q ≡ addr_at xs i
addr_at-last [] q i e = absurd (omega arith)
addr_at-last (x ∷ []) q zero e = refl
addr_at-last (x ∷ []) q (suc i) e = absurd (omega arith)
addr_at-last (x ∷ y ∷ ys) q zero e = absurd (omega arith)
addr_at-last (x ∷ y ∷ ys) q (suc i) e = addr_at-last (y ∷ ys) x.addr i (omega arith)

page_after-other :
    (xs : List Entry) (x : Entry) (ys : List Entry) (p : Ptr)
    → x.addr ≢ p
    → page_after xs x ys p ≡ p
page_after-other xs x [] p ne = rw (==-ne x.addr p ne) refl
page_after-other xs x (y ∷ ys) p ne = rw (==-ne x.addr p ne) refl

module _ (xs : List Entry) (x : Entry) (ys : List Entry) (a : Around xs x ys) where
  remove-before :
      (i : ℕ) (p : Ptr)
      → i < length xs
      → p ≡ addr_at xs i
      → Marks (mark_remove (length xs) (length ys) (at_index i)) (xs ++ ys) (page_after xs x ys p)
  remove-before i p lt e =
      let other : x.addr ≢ p =
        λ s. mem-ne p x.addr (addrs xs) (rw e (has-addr_at xs i lt)) a.not_before (sym s) in
      rw
        (
          ==-ne i (length xs) (λ s. omega (arith, s)),
          ltb-false (length xs) i (omega arith),
          page_after-other xs x ys p other,
        )
        (Marks-left (at_index i) xs ys p (lt, e))

  remove-behind :
      (j : ℕ) (p : Ptr)
      → j < length ys
      → p ≡ addr_at ys j
      → Marks
          (mark_remove (length xs) (length ys) (at_index (length xs + suc j)))
          (xs ++ ys)
          (page_after xs x ys p)
  remove-behind j p lt e =
      let other : x.addr ≢ p =
        λ s. mem-ne p x.addr (addrs ys) (rw e (has-addr_at ys j lt)) a.not_after (sym s) in
      rw
        (
          ==-ne (length xs + suc j) (length xs) (λ s. omega (arith, s)),
          ltb-true (length xs) (length xs + suc j) (omega arith),
          page_after-other xs x ys p other,
        )
        (subst (λ i. Marks (at_index i) (xs ++ ys) p) {x = length xs + j} (omega arith)
          (omega (arith, length-append xs ys), e ∙ sym (addr_at-right xs ys j)))

remove-here :
    (xs : List Entry) (x : Entry) (ys : List Entry)
    → xs ++ ys ≢ []
    → Marks
        (mark_remove (length xs) (length ys) (at_index (length xs)))
        (xs ++ ys)
        (page_after xs x ys x.addr)
remove-here [] x [] more = absurd (more refl)
remove-here (w ∷ ws) x [] more =
    rw (==-refl (length (w ∷ ws)), ==-refl x.addr)
      (
        omega (arith, length-append (w ∷ ws) []),
        addr_at-last (w ∷ ws) null (length (w ∷ ws) - 1) (omega arith)
            ∙ sym (addr_at-left (w ∷ ws) [] (length (w ∷ ws) - 1) (omega arith)),
      )
remove-here xs x (y ∷ ys) more =
    rw (==-refl (length xs), ==-refl x.addr, ==-ne (length (y ∷ ys)) 0 (λ e. omega (arith, e)))
      (
        omega (arith, length-append xs (y ∷ ys)),
        sym (addr_at-right xs (y ∷ ys) 0) ∙ ap (addr_at (xs ++ (y ∷ ys))) (omega arith),
      )

pub remove-Marks :
    (mark : Mark) (xs : List Entry) (x : Entry) (ys : List Entry) (p : Ptr)
    → Around xs x ys
    → xs ++ ys ≢ []
    → Marks mark (xs ++ (x ∷ ys)) p
    → Marks (mark_remove (length xs) (length ys) mark) (xs ++ ys) (page_after xs x ys p)
remove-Marks nowhere xs x ys p a more e = page_after-other xs x ys p (λ s. a.ne_null (s ∙ e)) ∙ e
remove-Marks lost xs x ys p a more e = tt
remove-Marks (at_index i) xs x ys p a more (lt, e) = elim (dec_lt i (length xs)) [
  | yes near ↦ remove-before xs x ys a i p near (e ∙ addr_at-left xs (x ∷ ys) i near)
  | no far ↦
      let j = i - length xs in
      let here : i ≡ length xs + j = omega arith in
      let at : p ≡ addr_at (x ∷ ys) j =
        e ∙ (ap (addr_at (xs ++ (x ∷ ys))) here ∙ addr_at-right xs (x ∷ ys) j) in
      let lt' : j < length (x ∷ ys) = omega (arith, length-append xs (x ∷ ys)) in
      subst
        (λ i.
          Marks (mark_remove (length xs) (length ys) (at_index i)) (xs ++ ys)
            (page_after xs x ys p))
        (sym here) (from j at lt')
]
  where
    from :
        (j : ℕ)
        → p ≡ addr_at (x ∷ ys) j
        → j < length (x ∷ ys)
        → Marks
            (mark_remove (length xs) (length ys) (at_index (length xs + j)))
            (xs ++ ys)
            (page_after xs x ys p)
    from zero at lt' =
        subst
          (λ q.
            Marks (mark_remove (length xs) (length ys) (at_index (length xs + 0))) (xs ++ ys)
              (page_after xs x ys q))
          (sym at)
          (subst
            (λ i.
              Marks (mark_remove (length xs) (length ys) (at_index i)) (xs ++ ys)
                (page_after xs x ys x.addr))
            {x = length xs} (omega arith) (remove-here xs x ys more))
    from (suc j) at lt' = remove-behind xs x ys a j p (omega arith) at
