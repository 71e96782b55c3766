-- ===== src/Playlist/Page.antt =====
-- `getPage`: turning pages of `PageListLen` entries.
use mathlib.Core.Path.{subst, sym}
use slogger.Base.{
  ltb-true, ltb-false, ap, ℕ, ◌+◌, ◌-◌, ◌<◌, ◌≡◌, Bool, true, false, Option, none, some, List, [],
  ◌∷◌, arith, if◌then◌else◌, length, ltb, ==-ne,
}
use native.Mathlib.Decide.{dec_lt}
use slogger.Memory.{Ptr, null, Memory, done, Run, chain}
use slogger.Playlist.{page_len, walk, settle, get_page}
use slogger.Playlist.Entries.{Entry, IsPlaylist}
use slogger.Playlist.Index.{addr_at, addr_at-ne}
use slogger.Playlist.Walks.{
  walk_next, walk_prv, back_up_lem, advance_lem, walk-null, walked, walked_back,
}

-- What a turn of the page answers, and the index at which the new page begins. `none` is no page
-- yet. Forwards the page moves on by its length if it can, and if it then shows the end of the
-- list it is moved back to be full; backwards it moves by its length, or to the start.
abbrev pub page_start : ℕ → ℕ → ℕ
page_start n i = if ltb (i + page_len) n then i + page_len else i

abbrev pub settled : ℕ → ℕ → Bool × ℕ
settled n j = if ltb (j + page_len) n then (true, j) else (false, n - page_len)

abbrev pub turn : ℕ → Bool → Option ℕ → Bool × ℕ
turn n true none = settled n 0
turn n true (some i) = settled n (page_start n i)
turn n false none = (false, 0)
turn n false (some i) = if ltb i page_len then (false, 0) else (true, i - page_len)

module _ {m : Memory} {head : Ptr} (xs : List Entry) (is : IsPlaylist m head xs) where
  -- The answer at a page that begins at index `j`.
  abbrev at_page : Bool × ℕ → Run (Bool × Ptr)
  at_page (b, j) = done (b, addr_at xs j) m

  settle_next :
      (j : ℕ) (page : Ptr)
      → j < length xs
      → settle true (addr_at xs j) page (walked xs is page_len j null 0) m
        ≡ at_page (settled (length xs) j)
  unfolding settle
  settle_next j page lt = elim (dec_lt (j + page_len) (length xs)) [
    | yes more ↦ rw (ltb-true (j + page_len) (length xs) more)
    | no end ↦
        rw
          (
            ltb-false (j + page_len) (length xs) (omega arith),
            ==-ne (addr_at xs j) null (addr_at-ne xs j is.nodes lt),
            back_up_lem xs is (page_len - (0 + (length xs - j))) j lt,
          )
          (ap (λ i. done (false, addr_at xs i) m) (omega arith))
  ]

  settle_prv :
      (i : ℕ) (page : Ptr)
      → i < length xs
      → settle false (addr_at xs i) page (walked_back xs is page_len i 0) m
        ≡ at_page (turn (length xs) false (some i))
  unfolding settle
  settle_prv i page lt = elim (dec_lt i page_len) [
    | yes near ↦
        rw
          (
            ltb-true i page_len near,
            ==-ne (addr_at xs 0) null (addr_at-ne xs 0 is.nodes (omega arith)),
            back_up_lem xs is (page_len - (0 + (i + 1))) 0 (omega arith),
          )
          (ap (λ j. done (false, addr_at xs j) m) (omega arith))
    | no far ↦ rw (ltb-false i page_len (omega arith))
  ]

  forwards :
      (j : ℕ) (page : Ptr)
      → j < length xs
      → chain (walk page_len true (addr_at xs j) null 0 m) (settle true (addr_at xs j) page)
        ≡ at_page (settled (length xs) j)
  forwards j page lt = rw (walk_next xs is page_len j null 0) (settle_next j page lt)

  backwards :
      (i : ℕ) (page : Ptr)
      → i < length xs
      → chain (walk page_len false (addr_at xs i) null 0 m) (settle false (addr_at xs i) page)
        ≡ at_page (turn (length xs) false (some i))
  backwards i page lt = rw (walk_prv xs is page_len i null 0 lt) (settle_prv i page lt)

abbrev pub place : List Entry → Option ℕ → Ptr
place xs none = null
place xs (some i) = addr_at xs i

abbrev pub InRange : ℕ → Option ℕ → Type 0
InRange n none = Unit {0}
InRange n (some i) = i < n

landing-start :
    (xs : List Entry) (i : ℕ)
    → (if ltb (i + page_len) (length xs) then addr_at xs (i + page_len) else addr_at xs i)
      ≡ addr_at xs (page_start (length xs) i)
landing-start xs i = ground arith

page_start-lt : (n i : ℕ) → i < n → page_start n i < n
page_start-lt n i lt = ground arith

-- On a play list, `getPage` at no page or at the node at an index turns the page as the index
-- arithmetic of `turn` says, reports whether there is more, and leaves the memory as it was.
pub get_page_refines :
    {m : Memory} {head : Ptr} (xs : List Entry) (next : Bool) (pos : Option ℕ)
    → IsPlaylist m head xs
    → InRange (length xs) pos
    → let (more, j) = turn (length xs) next pos in
      get_page head next (place xs pos) m ≡ done (more, addr_at xs j) m
unfolding get_page settle
get_page_refines {m} [] true none is lt =
    subst (λ p. get_page p true null m ≡ done (false, null) m) (sym is.first)
      (ap (λ r. chain r (settle true null null)) (walk-null [] is page_len true null 0))
get_page_refines {m} [] false none is lt =
    subst (λ p. get_page p false null m ≡ done (false, null) m) (sym is.first)
      (ap (λ r. chain r (settle false null null)) (walk-null [] is page_len false null 0))
get_page_refines {m} [] next (some i) is lt = absurd (omega arith)
get_page_refines {m} (x ∷ xs) true none is lt =
    subst (λ p. get_page p true null m ≡ at_page (x ∷ xs) is (settled (length (x ∷ xs)) 0))
      (sym is.first) (forwards (x ∷ xs) is 0 null (omega arith))
get_page_refines {m} (x ∷ xs) false none is lt =
    subst (λ p. get_page p false null m ≡ at_page (x ∷ xs) is (turn (length (x ∷ xs)) false none))
      (sym is.first) (backwards (x ∷ xs) is 0 null (omega arith))
get_page_refines {m} (x ∷ xs) true (some i) is lt =
    let page = addr_at (x ∷ xs) i in
    let n = length (x ∷ xs) in
    rw
      (
        ==-ne page null (addr_at-ne (x ∷ xs) i is.nodes lt),
        advance_lem (x ∷ xs) is page_len i page,
        landing-start (x ∷ xs) i,
      )
      (forwards (x ∷ xs) is (page_start n i) page (page_start-lt n i lt))
get_page_refines {m} (x ∷ xs) false (some i) is lt =
    let page = addr_at (x ∷ xs) i in
    rw (==-ne page null (addr_at-ne (x ∷ xs) i is.nodes lt)) (backwards (x ∷ xs) is i page lt)
