-- ===== src/Playlist/FileName/Cut.antt =====
-- What `extract_file_name` finds in a path.
use slogger.Base.{
  ℕ, zero, suc, ◌+◌, ◌-◌, ◌≡◌, ◌<◌, refl, ap, ◌∙◌, Bool, true, false, ◌||◌, some, [], ◌∷◌, ◌++◌,
  arith, ◌==◌, ltb-true, length, take, drop, length-append, append_assoc,
}
use slogger.Memory.{Text}
use slogger.Playlist.FileName.{
  extract_file_name, separator_at, last_separator, first_line, cut_extension, cut_at,
}

abbrev pub is_separator : ℕ → Bool
is_separator c = c == b'/' || c == 0x5c

-- No character is a separator or a line feed.
abbrev pub IsName : Text → Type 0
IsName [] = Unit {0}
IsName (c ∷ t) = (is_separator c ≡ false) × ((c == 0x0a) ≡ false) × IsName t

separator_at-behind :
    (dir rest : Text) (i k : ℕ)
    → k ≡ length dir + i
    → separator_at (dir ++ rest) k ≡ separator_at rest i
separator_at-behind [] rest i k e = ap (separator_at rest) (omega arith)
separator_at-behind (c ∷ dir) rest i zero e = absurd (omega arith)
separator_at-behind (c ∷ dir) rest i (suc k) e = separator_at-behind dir rest i k (omega arith)

separator_at-name : (t : Text) (i : ℕ) → IsName t → separator_at t i ≡ false
separator_at-name [] i n = refl
separator_at-name (c ∷ t) zero (s, f, n) = s
separator_at-name (c ∷ t) (suc i) (s, f, n) = separator_at-name t i n

first_line-name : (t : Text) → IsName t → first_line t ≡ t
first_line-name [] n = refl
first_line-name (c ∷ t) (s, f, n) = rw f (ap (λ r. c ∷ r) (first_line-name t n))

drop_behind : (dir : Text) (c : ℕ) (t : Text) → drop (suc (length dir)) (dir ++ (c ∷ t)) ≡ t
drop_behind [] c t = refl
drop_behind (d ∷ dir) c t = drop_behind dir c t

take_behind :
    (dir : Text) (c : ℕ) (t : Text) → take (suc (length dir)) (dir ++ (c ∷ t)) ≡ dir ++ (c ∷ [])
take_behind [] c t = refl
take_behind (d ∷ dir) c t = ap (λ r. d ∷ r) (take_behind dir c t)

take_front : (a b : Text) → take (length a) (a ++ b) ≡ a
take_front [] b = refl
take_front (c ∷ a) b = ap (λ r. c ∷ r) (take_front a b)

cut_extension-append :
    (base ext : Text) → 0 < length base → length ext ≡ 4 → cut_extension (base ++ ext) ≡ base
cut_extension-append base ext some_base four =
    let whole : length (base ++ ext) ≡ length base + 4 = omega (arith, length-append base ext) in
    let rest : length base + 4 - 4 ≡ length base = omega arith in
    rw (whole, ltb-true 4 (length base + 4) (omega arith), rest) (take_front base ext)

module _ (dir : Text) (c : ℕ) (name : Text) (s : is_separator c ≡ true) (n : IsName name) where
  separator_here : separator_at (dir ++ (c ∷ name)) (length dir) ≡ true
  separator_here = separator_at-behind dir (c ∷ name) 0 (length dir) (omega arith) ∙ s

  separator_behind : (j k : ℕ) → k ≡ length dir + suc j → separator_at (dir ++ (c ∷ name)) k ≡ false
  separator_behind j k e =
      separator_at-behind dir (c ∷ name) (suc j) k e ∙ separator_at-name name j n

  -- The loop, `j` characters behind the last separator.
  last_separator-found :
      (j k : ℕ)
      → 0 < length dir
      → k ≡ length dir + j
      → last_separator (dir ++ (c ∷ name)) k ≡ some (length dir)
  unfolding last_separator
  last_separator-found j zero p e = absurd (omega arith)
  last_separator-found zero (suc k) p e =
      let same : suc k ≡ length dir = omega arith in rw (same, separator_here) refl
  last_separator-found (suc j) (suc k) p e =
      rw (separator_behind j (suc k) e) (last_separator-found j k p (omega arith))

-- For a directory that is not empty, a slash or backslash, a name that is not empty and an
-- extension of four characters, without separators and line feeds, `extract_file_name` returns the
-- name alone, and leaves the caller's buffer without the extension.
pub extract_file_name_lem :
    (dir : Text) (c : ℕ) (base ext : Text)
    → 0 < length dir
    → is_separator c ≡ true
    → IsName (base ++ ext)
    → 0 < length base
    → length ext ≡ 4
    → extract_file_name (dir ++ (c ∷ (base ++ ext))) ≡ (base, dir ++ (c ∷ base))
unfolding extract_file_name cut_at
extract_file_name_lem dir c base ext d s n b four =
    let found =
      last_separator-found dir c (base ++ ext) s n (length (base ++ ext))
        (length (dir ++ (c ∷ (base ++ ext))) - 1) d
        (omega (arith, length-append dir (c ∷ (base ++ ext)))) in
    let next : length dir + 1 ≡ suc (length dir) = omega arith in
    rw
      (
        found,
        next,
        drop_behind dir c (base ++ ext),
        take_behind dir c (base ++ ext),
        first_line-name (base ++ ext) n,
        cut_extension-append base ext b four,
      )
      (ap (λ r. (base, r)) (append_assoc dir (c ∷ []) base))
