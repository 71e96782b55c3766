-- ===== src/Playlist/Calls/Marks.antt =====
-- Where `*pagehead` points in a play list, and where it points after each call.
use slogger.Playlist.Owned.{Owns}
use slogger.Base.{
  Bool, Option, ℕ, zero, suc, ◌+◌, ◌<◌, ◌≡◌, refl, true, false, some, none, List, [], ◌∷◌, ◌++◌,
  arith, ◌==◌, ◌∙◌, sym, ap, length, length-append, ==-ne, Bool-cases, inl, inr,
}
use slogger.Memory.Keeps.{Spot}
use slogger.Playlist.Page.{turn, InRange}
use slogger.Playlist.Calls.{
  turned, Mark, nowhere, lost, at_index, View, dropped, mark_append, mark_prepend,
}
use slogger.Memory.{Ptr, null, Memory}
use slogger.Playlist.{max_play_list_len}
use slogger.Playlist.Entries.{Entry, IsPlaylist}
use slogger.Playlist.Index.{addr_at}
use slogger.Playlist.Append.{rest, kept_last}
use slogger.Playlist.DropLast.{all_but_last}
use slogger.Playlist.Prepend.{kept_front}
use slogger.Playlist.Swap.{exchanged}
use slogger.Playlist.Display.{paths}
use slogger.Playlist.Calls.Named.{Named}

-- What a mark says of the pointer; nothing of one to a node that has been freed.
abbrev pub Marks : Mark → List Entry → Ptr → Type 0
Marks nowhere xs p = p ≡ null
Marks lost xs p = Unit {0}
Marks (at_index i) xs p = (i < length xs) × (p ≡ addr_at xs i)

-- A play list of tracks with these paths and with their file names, and a page that begins there;
-- what is allocated but is not the list's is one of the others `o`.
abbrev pub Tracks : (Spot → Bool) → Memory → Ptr → Ptr → View → Type 0
Tracks o m head page v =
    (xs : List Entry) × IsPlaylist m head xs
    × (paths m.text xs ≡ v.paths)
    × Named m.text xs
    × Marks v.mark xs page
    × Owns o m xs

pub addr_at-left :
    (xs ys : List Entry) (i : ℕ) → i < length xs → addr_at (xs ++ ys) i ≡ addr_at xs i
addr_at-left [] ys i lt = absurd (omega arith)
addr_at-left (x ∷ xs) ys zero lt = refl
addr_at-left (x ∷ xs) ys (suc i) lt = addr_at-left xs ys i (omega arith)

addr_at-all_but_last :
    (xs : List Entry) (i : ℕ)
    → suc i < length xs
    → (i < length (all_but_last xs)) × (addr_at xs i ≡ addr_at (all_but_last xs) i)
addr_at-all_but_last [] i lt = absurd (omega arith)
addr_at-all_but_last (x ∷ []) i lt = absurd (omega arith)
addr_at-all_but_last (x ∷ y ∷ zs) zero lt = (omega arith, refl)
addr_at-all_but_last (x ∷ y ∷ zs) (suc i) lt =
    let (a, b) = addr_at-all_but_last (y ∷ zs) i (omega arith) in (omega (arith, a), b)

pub Marks-left :
    (mark : Mark) (xs ys : List Entry) (p : Ptr) → Marks mark xs p → Marks mark (xs ++ ys) p
Marks-left nowhere xs ys p e = e
Marks-left lost xs ys p e = tt
Marks-left (at_index i) xs ys p (lt, e) =
    (omega (arith, length-append xs ys), e ∙ sym (addr_at-left xs ys i lt))

Marks-rest :
    (mark : Mark) (xs : List Entry) (p : Ptr) → Marks mark xs p → Marks (dropped mark) (rest xs) p
Marks-rest nowhere xs p e = e
Marks-rest lost xs p e = tt
Marks-rest (at_index zero) xs p e = tt
Marks-rest (at_index (suc i)) [] p (lt, e) = absurd (omega arith)
Marks-rest (at_index (suc i)) (x ∷ xs) p (lt, e) = (omega arith, e)

pub append-Marks :
    (mark : Mark) (xs : List Entry) (e : Entry) (p : Ptr)
    → Marks mark xs p
    → Marks (mark_append (length xs) mark) (kept_last xs ++ (e ∷ [])) p
append-Marks mark xs e p at = elim (Bool-cases (length xs == max_play_list_len)) [
  | inl full ↦ rw full (Marks-left (dropped mark) (rest xs) (e ∷ []) p (Marks-rest mark xs p at))
  | inr open_ ↦ rw open_ (Marks-left mark xs (e ∷ []) p at)
]

Marks-next :
    (i : ℕ) (x : Entry) (xs : List Entry) (p : Ptr)
    → Marks (at_index i) xs p
    → Marks (at_index (i + 1)) (x ∷ xs) p
Marks-next i x xs p (lt, e) =
    (omega arith, e ∙ ap (addr_at (x ∷ xs)) {x = suc i} {y = i + 1} (omega arith))

pub prepend-Marks :
    (mark : Mark) (xs : List Entry) (e : Entry) (p : Ptr)
    → Marks mark xs p
    → Marks (mark_prepend (length xs) mark) (e ∷ kept_front xs) p
prepend-Marks nowhere xs e p at = at
prepend-Marks lost xs e p at = tt
prepend-Marks (at_index i) xs e p (lt, at) = elim (Bool-cases (length xs == max_play_list_len)) [
  | inr open_ ↦ rw open_ (Marks-next i e xs p (lt, at))
  | inl full ↦ elim (Bool-cases (i + 1 == length xs)) [
    | inl last ↦ rw (full, last) tt
    | inr inside ↦
        let (short, same) = addr_at-all_but_last xs i (ground arith) in
        rw (full, inside) (Marks-next i e (all_but_last xs) p (short, at ∙ same))
  ]
]

pub swap-Marks :
    (mark : Mark) (xs : List Entry) (a b : Entry) (ys : List Entry) (p : Ptr)
    → Marks mark (xs ++ (a ∷ b ∷ ys)) p
    → Marks mark (exchanged xs a b ys) p
swap-Marks nowhere xs a b ys p e = e
swap-Marks lost xs a b ys p e = tt
swap-Marks (at_index i) xs a b ys p (lt, e) = (
  omega (arith, length-append xs (a ∷ b ∷ ys), exchanged-length xs a b ys),
  e ∙ addr_at-exchanged xs a b ys i,
)
  where
    exchanged-length :
        (xs : List Entry) (a b : Entry) (ys : List Entry)
        → length (exchanged xs a b ys) ≡ length xs + suc (suc (length ys))
    exchanged-length [] a b ys = omega arith
    exchanged-length (x ∷ xs) a b ys = omega (arith, exchanged-length xs a b ys)

    addr_at-exchanged :
        (xs : List Entry) (a b : Entry) (ys : List Entry) (i : ℕ)
        → addr_at (xs ++ (a ∷ b ∷ ys)) i ≡ addr_at (exchanged xs a b ys) i
    addr_at-exchanged [] a b ys zero = refl
    addr_at-exchanged [] a b ys (suc zero) = refl
    addr_at-exchanged [] a b ys (suc (suc i)) = refl
    addr_at-exchanged (x ∷ xs) a b ys zero = refl
    addr_at-exchanged (x ∷ xs) a b ys (suc i) = addr_at-exchanged xs a b ys i

turn-lt : (n : ℕ) (next : Bool) (pos : Option ℕ) → 0 < n → InRange n pos → (turn n next pos).1 < n
turn-lt n true none more range = ground arith
turn-lt n false none more range = more
turn-lt n true (some i) more range = ground arith
turn-lt n false (some i) more range = ground arith

-- A page that is turned is in the list.
pub turned-Marks :
    (xs : List Entry) (next : Bool) (pos : Option ℕ)
    → InRange (length xs) pos
    → let x = turn (length xs) next pos in Marks (turned (length xs) x) xs (addr_at xs x.1)
turned-Marks [] next pos range = refl
turned-Marks (y ∷ ys) next pos range =
    let n = length (y ∷ ys) in
    rw (==-ne n 0 (λ e. omega (arith, e))) (turn-lt n next pos (omega arith) range, refl)
