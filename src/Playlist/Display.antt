-- ===== src/Playlist/Display.antt =====
-- `displaylist`, `displayPage` and `deleteList`.
use slogger.Base.{
  ℕ, zero, suc, ◌<◌, ◌≡◌, refl, ◌≢◌, none, some, List, [], ◌∷◌, arith, length, ==-ne, take, drop,
}
use slogger.Memory.{Ptr, null, Text, Store, Memory, done}
use slogger.Memory.Commands
use slogger.Memory.Update.{NoDup}
use slogger.Playlist.{page_len, display_list, display_rounds, display_page}
use slogger.Playlist.Entries.{Entry, IsPlaylist, addrs, strings, head_or, Seg, Allocated}
use slogger.Playlist.Index.{addr_at, head_or-addr_at}

-- The characters at an address, none if no string is there.
abbrev pub text_at : Store Text → Ptr → Text
text_at t p = elim (t p) [ none ↦ [] | some s ↦ s ]

-- The paths of the entries, in order.
abbrev pub paths : Store Text → List Entry → List Text
paths t [] = []
paths t (x ∷ xs) = text_at t x.path ∷ paths t xs

pub text_at-some : (t : Store Text) (p : Ptr) → t p ≢ none → t p ≡ some (text_at t p)
text_at-some t p here = ground arith

display_list-paths :
    (m : Memory) (k : ℕ) (prv : Ptr) (xs : List Entry)
    → Seg m.node prv xs null
    → NoDup (addrs xs)
    → Allocated m.text (strings xs)
    → length xs < k
    → display_list k (head_or xs null) m ≡ done (paths m.text xs) m
unfolding display_list
display_list-paths m zero prv xs s d o lt = absurd (omega arith)
display_list-paths m (suc k) prv [] s d o lt = refl
display_list-paths m (suc k) prv (x ∷ xs) (e, s) d (here, o) lt = rw (
  ==-ne x.addr null d.0,
  Commands.load-some m x.addr e,
  Commands.read-some m x.path (text_at-some m.text x.path here),
  display_list-paths m k x.addr xs s d.2 o.1 (omega arith),
)

-- On a play list, with fuel above its length, `displaylist` prints the path of every entry, in
-- order, and changes nothing.
pub display_list_lem :
    {m : Memory} {head : Ptr} (k : ℕ) (xs : List Entry)
    → IsPlaylist m head xs
    → length xs < k
    → display_list k head m ≡ done (paths m.text xs) m
display_list_lem {m} k xs is lt =
    rw is.first (display_list-paths m k null xs is.seg is.nodes is.owned lt)

display_rounds-paths :
    (m : Memory) (k : ℕ) (prv : Ptr) (xs : List Entry)
    → Seg m.node prv xs null
    → NoDup (addrs xs)
    → Allocated m.text (strings xs)
    → display_rounds k (head_or xs null) m ≡ done (take k (paths m.text xs)) m
unfolding display_rounds
display_rounds-paths m zero prv xs s d o = refl
display_rounds-paths m (suc k) prv [] s d o = refl
display_rounds-paths m (suc k) prv (x ∷ xs) (e, s) d (here, o) = rw (
  ==-ne x.addr null d.0,
  Commands.load-some m x.addr e,
  Commands.read-some m x.path (text_at-some m.text x.path here),
  display_rounds-paths m k x.addr xs s d.2 o.1,
)

display_from :
    (m : Memory) (k : ℕ) (prv : Ptr) (xs : List Entry) (i : ℕ)
    → Seg m.node prv xs null
    → NoDup (addrs xs)
    → Allocated m.text (strings xs)
    → display_rounds k (addr_at xs i) m ≡ done (take k (drop i (paths m.text xs))) m
display_from m k prv xs zero s d o =
    rw (← head_or-addr_at xs) (display_rounds-paths m k prv xs s d o)
display_from m k prv [] (suc i) s d o = display_rounds-paths m k prv [] s d o
display_from m k prv (x ∷ xs) (suc i) (e, s) d (here, o) = display_from m k x.addr xs i s d.2 o.1

-- On a play list `displayPage` at the node at an index prints the paths of at most `PageListLen`
-- entries from that index on, and changes nothing.
pub display_page_lem :
    {m : Memory} {head : Ptr} (xs : List Entry) (i : ℕ)
    → IsPlaylist m head xs
    → display_page (addr_at xs i) m ≡ done (take page_len (drop i (paths m.text xs))) m
unfolding display_page
display_page_lem {m} xs i is = display_from m page_len null xs i is.seg is.nodes is.owned
