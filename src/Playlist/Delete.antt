-- ===== src/Playlist/Delete.antt =====
-- `deleteList`.
use slogger.Base.{
  ℕ, zero, suc, ◌<◌, ◌≡◌, refl, ◌≢◌, none, List, [], ◌∷◌, arith, if◌then◌else◌, length, ==-ne,
}
use slogger.Memory.{Ptr, null, Store, Memory, done, Ensures, upd, free_text, free_node, ◌>>◌}
use slogger.Memory.Commands
use slogger.Memory.Update.{has, NoDup, upd_other, some_ne}
use slogger.Playlist.{delete_list}
use slogger.Playlist.Entries.{Entry, IsPlaylist, addrs, strings, head_or, Seg, Allocated}

-- The cells at the addresses `ps` are free, and the others are as they were.
abbrev pub Without : {A : Type 0} → List Ptr → Store A → Store A → Type 0
Without ps h h' = (p : Ptr) → h' p ≡ (if has p ps then none else h p)

-- The outcome of `deleteList`: every node and every string of the list is free, all else as before.
pub record Deleted (m : Memory) (xs : List Entry) (r : Unit {0}) (m' : Memory) : Type 0 where
  pub nodes : Without (addrs xs) m.node m'.node
  pub texts : Without (strings xs) m.text m'.text

-- The memory without one entry.
abbrev cleared : Memory → Entry → Memory
cleared m x = record {
  node = upd m.node x.addr none;
  text = upd (upd m.text x.file none) x.path none;
}

module _ (m : Memory) (xs : List Entry) (x : Entry) (d : NoDup (addrs (x ∷ xs)))
    (n : NoDup (strings (x ∷ xs))) where
  cleared-run :
      (m' : Memory) (del : Deleted m xs tt m')
      → m.node x.addr ≢ none
      → m.text x.path ≢ none
      → m.text x.file ≢ none
      → (do free_text x.file; free_text x.path; free_node x.addr) m' ≡ done tt (cleared m' x)
  cleared-run m' del here path file =
      rw
        (
          Commands.free_text-done m' x.file (ground (arith, del.texts x.file)),
          Commands.free_text-done (record m' { text = upd m'.text x.file none }) x.path
              (λ u. ground (arith, del.texts x.path, upd_other m'.text x.file x.path none)),
          Commands.free_node-done (record m' { text = upd (upd m'.text x.file none) x.path none })
              x.addr (ground (arith, del.nodes x.addr)),
        )
        refl

  cleared-Deleted : (m' : Memory) → Deleted m xs tt m' → Deleted m (x ∷ xs) tt (cleared m' x)
  unfolding upd
  cleared-Deleted m' del = record {
    nodes = λ p. ground (arith, del.nodes p);
    texts = λ p. ground (arith, del.texts p);
  }

delete_list-Deleted :
    (m : Memory) (k : ℕ) (prv : Ptr) (xs : List Entry)
    → Seg m.node prv xs null
    → NoDup (addrs xs)
    → NoDup (strings xs)
    → Allocated m.text (strings xs)
    → length xs < k
    → Ensures (Deleted m xs) (delete_list k (head_or xs null) m)
unfolding delete_list
delete_list-Deleted m zero prv xs s d n o lt = absurd (omega arith)
delete_list-Deleted m (suc k) prv [] s d n o lt = record { nodes = λ p. refl; texts = λ p. refl }
delete_list-Deleted m (suc k) prv (x ∷ xs) (e, s) d n (here, (here', o)) lt =
    rw (==-ne x.addr null d.0, Commands.load-some m x.addr e)
      (Commands.bind (Deleted m xs) (Deleted m (x ∷ xs)) (delete_list k (head_or xs null) m) _
        (delete_list-Deleted m k x.addr xs s d.2 n.2.2 o (omega arith))
        (λ r m' del.
          rw (cleared-run m xs x d n m' del (some_ne e) here here')
            (cleared-Deleted m xs x d n m' del)))

-- On a play list, with fuel above its length, `deleteList` ends and frees exactly the nodes and
-- the strings of the list, each once.
pub delete_list_lem :
    {m : Memory} {head : Ptr} (k : ℕ) (xs : List Entry)
    → IsPlaylist m head xs
    → length xs < k
    → Ensures (Deleted m xs) (delete_list k head m)
delete_list_lem {m} k xs is lt =
    rw is.first (delete_list-Deleted m k null xs is.seg is.nodes is.texts is.owned lt)
