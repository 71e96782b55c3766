-- ===== src/Playlist/FileName.antt =====
-- `extract_file_name` of playlinklist.c, and `strcmp` as an equality test.
pub mod Cut
use slogger.Base.{
  take, drop, ℕ, zero, suc, ◌+◌, ◌-◌, Bool, true, false, ◌&&◌, ◌||◌, Option, none, some, [], ◌∷◌,
  ◌++◌, ◌==◌, ltb, if◌then◌else◌, length, get_elem?,
}
use slogger.Memory.{Text}

abbrev pub text_eq : Text → Text → Bool
text_eq [] [] = true
text_eq [] (_ ∷ _) = false
text_eq (_ ∷ _) [] = false
text_eq (x ∷ xs) (y ∷ ys) = x == y && text_eq xs ys

-- A slash or a backslash at index `i`.
abbrev pub separator_at : Text → ℕ → Bool
separator_at t i = elim (get_elem? t i) [ none ↦ false | some c ↦ c == b'/' || c == 0x5c ]

-- The loop downwards from `i`. It stops before index 0.
last_separator : Text → ℕ → Option ℕ
last_separator t zero = none
last_separator t (suc i) = if separator_at t (suc i) then some (suc i) else last_separator t i

-- The characters before the first line feed.
abbrev pub first_line : Text → Text
first_line [] = []
first_line (c ∷ t) = if c == 0x0a then [] else c ∷ first_line t

abbrev pub cut_extension : Text → Text
cut_extension t = if ltb 4 (length t) then take (length t - 4) t else t

cut_at : Option ℕ → Text → Text × Text
cut_at none t = let name = cut_extension (first_line t) in (name, name)
cut_at (some i) t =
    let name = cut_extension (first_line (drop (i + 1) t)) in (name, take (i + 1) t ++ name)

-- The name, and what the caller's buffer holds afterwards: the terminators are written into it.
unfoldable pub extract_file_name : Text → Text × Text
unfolding last_separator cut_at
extract_file_name path = cut_at (last_separator path (length path - 1)) path
