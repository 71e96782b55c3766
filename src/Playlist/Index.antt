-- ===== src/Playlist/Index.antt =====
-- The nodes of a play list by their index.
use slogger.Base.{ℕ, zero, suc, ◌≤◌, ◌<◌, ◌≡◌, refl, ◌≢◌, some, List, [], ◌∷◌, arith, length}
use slogger.Memory.{Ptr, null, Node, cell, Store}
use slogger.Memory.Update.{NoDup}
use slogger.Playlist.Entries.{Entry, addrs, head_or, Seg}

-- The address at an index, and `NULL` behind the end.
abbrev pub addr_at : List Entry → ℕ → Ptr
addr_at [] i = null
addr_at (x ∷ xs) zero = x.addr
addr_at (x ∷ xs) (suc i) = addr_at xs i

-- The address before an index.
abbrev pub prv_at : Ptr → List Entry → ℕ → Ptr
prv_at prv [] i = prv
prv_at prv (x ∷ xs) zero = prv
prv_at prv (x ∷ xs) (suc i) = prv_at x.addr xs i

pub head_or-addr_at : (xs : List Entry) → head_or xs null ≡ addr_at xs 0
head_or-addr_at [] = refl
head_or-addr_at (x ∷ xs) = refl

pub prv_at-suc :
    (prv : Ptr) (xs : List Entry) (i : ℕ) → suc i < length xs → prv_at prv xs (suc i) ≡ addr_at xs i
prv_at-suc prv [] i lt = absurd (omega arith)
prv_at-suc prv (x ∷ []) i lt = absurd (omega arith)
prv_at-suc prv (x ∷ y ∷ ys) zero lt = refl
prv_at-suc prv (x ∷ y ∷ ys) (suc i) lt = prv_at-suc x.addr (y ∷ ys) i (omega arith)

pub prv_at-zero : (prv : Ptr) (xs : List Entry) → prv_at prv xs 0 ≡ prv
prv_at-zero prv [] = refl
prv_at-zero prv (x ∷ xs) = refl

pub addr_at-end : (xs : List Entry) (i : ℕ) → length xs ≤ i → addr_at xs i ≡ null
addr_at-end [] i le = refl
addr_at-end (x ∷ xs) zero le = absurd (omega arith)
addr_at-end (x ∷ xs) (suc i) le = addr_at-end xs i (omega arith)

pub addr_at-ne : (xs : List Entry) (i : ℕ) → NoDup (addrs xs) → i < length xs → addr_at xs i ≢ null
addr_at-ne [] i d lt = absurd (omega arith)
addr_at-ne (x ∷ xs) zero d lt = d.0
addr_at-ne (x ∷ xs) (suc i) d lt = addr_at-ne xs i d.2 (omega arith)

-- The node at an index: its neighbours are those at the indices beside it.
pub Seg-at :
    (h : Store Node) (prv : Ptr) (xs : List Entry) (i : ℕ)
    → Seg h prv xs null
    → i < length xs
    → (p f : Ptr) × (h (addr_at xs i) ≡ some (cell (addr_at xs (suc i)) p f (prv_at prv xs i)))
Seg-at h prv [] i s lt = absurd (omega arith)
Seg-at h prv (x ∷ xs) zero (e, s) lt = (x.path, x.file, rw (← head_or-addr_at xs) e)
Seg-at h prv (x ∷ xs) (suc i) (e, s) lt = Seg-at h x.addr xs i s (omega arith)
