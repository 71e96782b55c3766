-- ===== src/Playlist/Walks.antt =====
-- The loops of `getPage` on a play list.
use mathlib.Core.Path.{ap₂}
use slogger.Base.{
  ltb-true, ltb-false, ap, ℕ, zero, suc, ◌+◌, ◌-◌, ◌<◌, ◌≡◌, refl, Bool, true, false, List, arith,
  ◌==◌, if◌then◌else◌, length, ltb, ==-ne,
}
use native.Mathlib.Nat.{add-zero}
use native.Mathlib.Decide.{dec_lt}
use slogger.Memory.{Ptr, null, Node, cell, Memory, done, Run, load}
use slogger.Memory.Commands
use slogger.Playlist.{Walk, full, short, advance, walk, back_up}
use slogger.Playlist.Entries.{Entry, IsPlaylist}
use slogger.Playlist.Index.{
  addr_at, prv_at, prv_at-suc, prv_at-zero, addr_at-end, addr_at-ne, Seg-at,
}

module _ {m : Memory} {head : Ptr} (xs : List Entry) (is : IsPlaylist m head xs) where
  pub at :
      (i : ℕ)
      → i < length xs
      → (n : Node) × (load (addr_at xs i) m ≡ done n m)
        × (n.next ≡ addr_at xs (suc i))
        × (n.prv ≡ prv_at null xs i)
        × ((addr_at xs i == null) ≡ false)
  at i lt =
      let (p, f, e) = Seg-at m.node null xs i is.seg lt in
      (
        cell (addr_at xs (suc i)) p f (prv_at null xs i),
        Commands.load-some m (addr_at xs i) e,
        refl,
        refl,
        ==-ne (addr_at xs i) null (addr_at-ne xs i is.nodes lt),
      )

  abbrev pub landing : ℕ → Ptr → Ptr
  landing j head = if ltb j (length xs) then addr_at xs j else head

  pub advance_lem :
      (k i : ℕ) (head : Ptr) → advance k (addr_at xs i) head m ≡ done (landing (i + k) head) m
  unfolding advance
  advance_lem zero i head = elim (dec_lt i (length xs)) [
    | yes lt ↦ rw (
      add-zero,
      ltb-true i (length xs) lt,
      ==-ne (addr_at xs i) null (addr_at-ne xs i is.nodes lt),
    )
    | no out ↦ rw (add-zero, addr_at-end xs i (omega arith), ltb-false i (length xs) (omega arith))
  ]
  advance_lem (suc k) i head = elim (dec_lt i (length xs)) [
    | yes lt ↦
        let (n, e, next, prv, ne) = at i lt in
        rw (ne, e, next, advance_lem k (suc i) head)
          (ap (λ j. done (landing j head) m) (omega arith))
    | no out ↦ rw (addr_at-end xs i (omega arith), ltb-false (i + suc k) (length xs) (omega arith))
  ]

  -- The last node that a walk forwards from index `i` meets.
  abbrev pub last_seen : ℕ → Ptr → Ptr
  last_seen i prev = if ltb i (length xs) then addr_at xs (length xs - 1) else prev

  abbrev pub walked : ℕ → ℕ → Ptr → ℕ → Walk
  walked k i prev c =
      if ltb (i + k) (length xs)
      then full (addr_at xs (i + k))
      else short (last_seen i prev) (c + (length xs - i))

  pub last_seen-suc :
      (i : ℕ) (prev : Ptr) → i < length xs → last_seen (suc i) (addr_at xs i) ≡ last_seen i prev
  last_seen-suc i prev lt = elim (dec_lt (suc i) (length xs)) [
    | yes more ↦ rw (ltb-true (suc i) (length xs) more, ltb-true i (length xs) lt)
    | no end ↦
        rw (ltb-false (suc i) (length xs) (omega arith), ltb-true i (length xs) lt)
          (ap (addr_at xs) (omega arith))
  ]

  pub walk_next :
      (k i : ℕ) (prev : Ptr) (c : ℕ)
      → walk k true (addr_at xs i) prev c m ≡ done (walked k i prev c) m
  unfolding walk
  walk_next zero i prev c = elim (dec_lt i (length xs)) [
    | yes lt ↦ rw (
      add-zero,
      ltb-true i (length xs) lt,
      ==-ne (addr_at xs i) null (addr_at-ne xs i is.nodes lt),
    )
    | no out ↦
        rw (add-zero, addr_at-end xs i (omega arith), ltb-false i (length xs) (omega arith))
          (ap (λ n. done (short prev n) m) (omega arith))
  ]
  walk_next (suc k) i prev c = elim (dec_lt i (length xs)) [
    | yes lt ↦
        let (n, e, next, prv, ne) = at i lt in
        rw (ne, e, next, walk_next k (suc i) (addr_at xs i) (c + 1), last_seen-suc i prev lt)
          (ap₂
            (λ j l.
              done (if ltb j (length xs) then full (addr_at xs j) else short (last_seen i prev) l)
                m)
            (omega arith) (omega arith))
    | no out ↦
        rw
          (
            addr_at-end xs i (omega arith),
            ltb-false i (length xs) (omega arith),
            ltb-false (i + suc k) (length xs) (omega arith),
          )
          (ap (λ n. done (short prev n) m) (omega arith))
  ]

  pub walk-null :
      (k : ℕ) (b : Bool) (prev : Ptr) (c : ℕ) → walk k b null prev c m ≡ done (short prev c) m
  unfolding walk
  walk-null zero b prev c = refl
  walk-null (suc k) b prev c = refl

  abbrev pub walked_back : ℕ → ℕ → ℕ → Walk
  walked_back k i c =
      if ltb i k then short (addr_at xs 0) (c + (i + 1)) else full (addr_at xs (i - k))

  pub walked_back-suc :
      (k i c : ℕ)
      → ◌≡◌ {A = Run Walk}
          (done (walked_back k i (c + 1)) m)
          (done (walked_back (suc k) (suc i) c) m)
  walked_back-suc k i c = elim (dec_lt i k) [
    | yes lt ↦
        rw (ltb-true i k lt, ltb-true (suc i) (suc k) (omega arith))
          (ap (λ n. done (short (addr_at xs 0) n) m) (omega arith))
    | no ge ↦
        rw (ltb-false i k (omega arith), ltb-false (suc i) (suc k) (omega arith))
          (ap (λ j. done (full (addr_at xs j)) m) (omega arith))
  ]

  pub walk_prv :
      (k i : ℕ) (prev : Ptr) (c : ℕ)
      → i < length xs
      → walk k false (addr_at xs i) prev c m ≡ done (walked_back k i c) m
  unfolding walk
  walk_prv zero i prev c lt =
      rw (==-ne (addr_at xs i) null (addr_at-ne xs i is.nodes lt), ltb-false i 0 (omega arith))
        (ap (λ j. done (full (addr_at xs j)) m) (omega arith))
  walk_prv (suc k) zero prev c lt =
      let (n, e, next, prv, ne) = at 0 lt in
      rw
        (
          ne,
          e,
          prv,
          prv_at-zero null xs,
          walk-null k false (addr_at xs 0) (c + 1),
          ltb-true 0 (suc k) (omega arith),
        )
        refl
  walk_prv (suc k) (suc i) prev c lt =
      let (n, e, next, prv, ne) = at (suc i) lt in
      rw
        (
          ne,
          e,
          prv,
          prv_at-suc null xs i lt,
          walk_prv k i (addr_at xs (suc i)) (c + 1) (omega arith),
        )
        (walked_back-suc k i c)

  pub back_up_lem :
      (k i : ℕ) → i < length xs → back_up k (addr_at xs i) m ≡ done (addr_at xs (i - k)) m
  unfolding back_up
  back_up_lem zero i lt = ap (λ j. done (addr_at xs j) m) (omega arith)
  back_up_lem (suc k) zero lt =
      let (n, e, next, prv, ne) = at 0 lt in
      rw (e, prv, prv_at-zero null xs) (ap (λ j. done (addr_at xs j) m) (omega arith))
  back_up_lem (suc k) (suc i) lt =
      let (n, e, next, prv, ne) = at (suc i) lt in
      rw
        (
          e,
          prv,
          prv_at-suc null xs i lt,
          ==-ne (addr_at xs i) null (addr_at-ne xs i is.nodes (omega arith)),
          back_up_lem k i (omega arith),
        )
        (ap (λ j. done (addr_at xs j) m) (omega arith))
