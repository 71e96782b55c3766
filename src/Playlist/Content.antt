-- ===== src/Playlist/Content.antt =====
-- What a play list shows: the paths of its entries, whatever the addresses.
use mathlib.Core.Path.{ap₂}
use slogger.Base.{Bool, ◌≡◌, refl, true, List, [], ◌∷◌, ◌++◌, arith, ◌∙◌, ap, length}
use slogger.Memory.{Ptr, Text, Store, Memory}
use slogger.Memory.Update.{has, mem-ne}
use slogger.Playlist.{Blocks, Removed}
use slogger.Playlist.Entries.{Entry, IsPlaylist, strings}
use slogger.Playlist.New.{Added, entry}
use slogger.Playlist.Remove.{Removal}
use slogger.Playlist.Swap.{Swapped, exchanged, with_strings}
use slogger.Playlist.Strings.{freed}
use slogger.Playlist.Display.{text_at, paths}

-- A play list with these paths.
abbrev pub Shows : Memory → Ptr → List Text → Type 0
Shows m head ts = (xs : List Entry) × IsPlaylist m head xs × (paths m.text xs ≡ ts)

pub paths-append :
    (t : Store Text) (xs ys : List Entry) → paths t (xs ++ ys) ≡ paths t xs ++ paths t ys
paths-append t [] ys = refl
paths-append t (x ∷ xs) ys = ap (λ l. text_at t x.path ∷ l) (paths-append t xs ys)

pub length-paths : (t : Store Text) (xs : List Entry) → length (paths t xs) ≡ length xs
length-paths t [] = refl
length-paths t (x ∷ xs) = omega (arith, length-paths t xs)

-- Strings that stay are read as before.
pub paths-same :
    (t t' : Store Text) (xs : List Entry)
    → ((p : Ptr) → has p (strings xs) ≡ true → t' p ≡ t p)
    → paths t' xs ≡ paths t xs
paths-same t t' [] same = refl
paths-same t t' (x ∷ xs) same =
    let here : t' x.path ≡ t x.path = same x.path (ground arith) in
    ap₂ (λ a l. a ∷ l) (ground arith) (paths-same t t' xs (λ p i. same p (ground arith)))

pub Removal-paths :
    {m m' : Memory} {xs : List Entry} {x : Entry} {ys : List Entry} {head page : Ptr} {r : Removed}
    → IsPlaylist m head (xs ++ (x ∷ ys))
    → Removal m xs x ys page r m'
    → paths m'.text (xs ++ ys) ≡ paths m.text (xs ++ ys)
Removal-paths {m} {m'} {xs} {x} {ys} is rem =
    let f = freed xs x ys m.text is.texts is.owned in
    paths-same m.text m'.text (xs ++ ys) (λ p i.
      rem.others p (mem-ne p x.path (strings (xs ++ ys)) i f.not_path)
        (mem-ne p x.file (strings (xs ++ ys)) i f.not_file))

pub Swapped-paths :
    {m m' : Memory} {head sel : Ptr} {xs : List Entry} {a b : Entry} {ys : List Entry}
    {r : Bool × Ptr}
    → Swapped m head xs a b ys sel r m'
    → paths m'.text (exchanged xs a b ys)
      ≡ paths m.text xs ++ (text_at m.text b.path ∷ text_at m.text a.path ∷ paths m.text ys)
Swapped-paths {m} {m'} {xs = xs} {a = a} {b = b} {ys = ys} s =
    ap (λ t. paths t (exchanged xs a b ys)) s.texts
    ∙ paths-append m.text xs (with_strings a b ∷ with_strings b a ∷ ys)

pub Added-paths :
    {m m' : Memory} {b : Blocks} {path : Text} {kept : List Entry} {head : Ptr}
    → Added m b path kept (kept ++ (entry b ∷ [])) head m'
    → paths m'.text (kept ++ (entry b ∷ [])) ≡ paths m.text kept ++ (path ∷ [])
Added-paths {m} {m'} {b} {path} {kept} a =
    let last : text_at m'.text b.path ≡ path = ground (arith, a.new_path) in
    paths-append m'.text kept (entry b ∷ [])
    ∙ ap₂ (λ l c. l ++ (c ∷ [])) (paths-same m.text m'.text kept a.same) last
