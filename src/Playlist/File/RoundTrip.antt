-- ===== src/Playlist/File/RoundTrip.antt =====
-- What `saveplaylist` writes is what `readplaylist` reads.
use slogger.Base.{
  ◌≢◌, ℕ, zero, suc, ◌≡◌, ◌<◌, refl, ap, true, false, some, List, [], ◌∷◌, ◌++◌, arith, ◌==◌,
  length, ==-ne, length-append,
}
use slogger.Playlist.File.{c_text, save_lines, save_playlist, fgets, read_lines}
use slogger.Memory.{Ptr, null, Text, Memory, done}
use slogger.Memory.Commands
use slogger.Memory.Update.{NoDup}
use slogger.Playlist.FileName.{first_line}
use slogger.Playlist.Entries.{Entry, IsPlaylist, addrs, strings, head_or, Seg, Allocated}
use slogger.Playlist.Display.{text_at-some, paths}

-- No line feed and no byte 0.
abbrev pub OneLine : Text → Type 0
OneLine [] = Unit {0}
OneLine (c ∷ t) = ((c == 10) ≡ false) × (c ≢ 0) × OneLine t

-- Lines of at most 254 characters, none of them 0.
abbrev pub AllShort : List Text → Type 0
AllShort [] = Unit {0}
AllShort (t ∷ ts) = OneLine t × (length t < 255) × AllShort ts

abbrev pub unlines : List Text → Text
unlines [] = []
unlines (t ∷ ts) = t ++ (10 ∷ unlines ts)

pub save_lines-unlines :
    (m : Memory) (k : ℕ) (prv : Ptr) (xs : List Entry)
    → Seg m.node prv xs null
    → NoDup (addrs xs)
    → Allocated m.text (strings xs)
    → length xs < k
    → save_lines k (head_or xs null) m ≡ done (unlines (paths m.text xs)) m
unfolding save_lines
save_lines-unlines m zero prv xs s d o lt = absurd (omega arith)
save_lines-unlines m (suc k) prv [] s d o lt = refl
save_lines-unlines m (suc k) prv (x ∷ xs) (e, s) d (here, (here', o)) lt =
    rw
      (
        ==-ne x.addr null d.0,
        Commands.load-some m x.addr e,
        Commands.read-some m x.path (text_at-some m.text x.path here),
        save_lines-unlines m k x.addr xs s d.2 o (omega arith),
      )
      refl

fgets-line :
    (n : ℕ) (t rest : Text)
    → OneLine t
    → length t < n
    → fgets n (t ++ (10 ∷ rest)) ≡ (t ++ (10 ∷ []), rest)
unfolding fgets
fgets-line zero t rest o lt = absurd (omega arith)
fgets-line (suc n) [] rest o lt = refl
fgets-line (suc n) (c ∷ t) rest (ne, z, o) lt = rw (ne, fgets-line n t rest o (omega arith)) refl

first_line-cut : (t rest : Text) → OneLine t → first_line (t ++ (10 ∷ rest)) ≡ t
first_line-cut [] rest o = refl
first_line-cut (c ∷ t) rest (ne, z, o) = rw ne (ap (λ r. c ∷ r) (first_line-cut t rest o))

c_text-line : (t : Text) → OneLine t → c_text (t ++ (10 ∷ [])) ≡ t ++ (10 ∷ [])
c_text-line [] o = refl
c_text-line (zero ∷ t) (ne, z, o) = absurd (z refl)
c_text-line (suc c ∷ t) (ne, z, o) = ap (λ r. suc c ∷ r) (c_text-line t o)

pub read_lines-unlines :
    (k : ℕ) (ts : List Text)
    → AllShort ts
    → length (unlines ts) < k
    → read_lines k (unlines ts) ≡ ts
unfolding read_lines
read_lines-unlines zero ts a lt = absurd (omega arith)
read_lines-unlines (suc k) [] a lt = refl
read_lines-unlines (suc k) ([] ∷ ts) (o, l, a) lt =
    ap (λ r. [] ∷ r) (read_lines-unlines k ts a (omega arith))
read_lines-unlines (suc k) ((c ∷ t) ∷ ts) (o, l, a) lt =
    rw (fgets-line 255 (c ∷ t) (unlines ts) o l, c_text-line (c ∷ t) o, first_line-cut (c ∷ t) [] o)
      (ap (λ r. (c ∷ t) ∷ r)
        (read_lines-unlines k ts a (omega (arith, length-append t (10 ∷ unlines ts)))))

-- The file that `saveplaylist` writes.
pub save_playlist-unlines :
    {m : Memory} {head : Ptr} (k : ℕ) (xs : List Entry)
    → IsPlaylist m head xs
    → length xs < k
    → save_playlist true k head m ≡ done (true, some (unlines (paths m.text xs))) m
unfolding save_playlist
save_playlist-unlines {m} k xs is lt =
    rw (is.first, save_lines-unlines m k null xs is.seg is.nodes is.owned lt) refl
