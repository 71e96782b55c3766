-- ===== src/Playlist/File.antt =====
-- `saveplaylist` and `readplaylist`: the file is its bytes.
pub mod RoundTrip
pub mod Reading
use slogger.Base.{
  ℕ, zero, suc, Bool, true, false, Option, none, some, List, [], ◌∷◌, ◌++◌, ◌==◌, if◌then◌else◌,
}
use slogger.Memory.{Ptr, null, Text, Cmd, out_of_fuel, pure, ◌>>=◌, ◌>>◌, load, read}
use slogger.Playlist.{Blocks, add_last}
use slogger.Playlist.FileName.{first_line}

-- The loop of `saveplaylist`: what it writes.
pub save_lines : ℕ → Ptr → Cmd Text
save_lines zero list = λ _. out_of_fuel
save_lines (suc k) list = if list == null then pure [] else do
  n ← load list
  line ← read n.path
  rest ← save_lines k n.next
  pure (line ++ (10 ∷ rest))

-- `saveplaylist`: the flag says whether `fopen` succeeds; the result, and the file if it is written.
pub save_playlist : Bool → ℕ → Ptr → Cmd (Bool × Option Text)
unfolding save_lines
save_playlist opened k list =
    if opened then (do text ← save_lines k list; pure (true, some text)) else pure (false, none)

-- What a buffer with these bytes, and a terminator behind them, is as a string.
abbrev pub c_text : Text → Text
c_text [] = []
c_text (zero ∷ t) = []
c_text (suc c ∷ t) = suc c ∷ c_text t

-- `fgets` for at most `n` characters: what is read, with its line feed, and what is left.
fgets : ℕ → Text → Text × Text
fgets zero file = ([], file)
fgets (suc n) [] = ([], [])
fgets (suc n) (c ∷ file) =
    let (line, rest) = fgets n file in if c == 10 then (c ∷ [], file) else (c ∷ line, rest)

-- The lines that the loop of `readplaylist` hands on, recursion on fuel, at most one unit a byte.
pub read_lines : ℕ → Text → List Text
unfolding fgets
read_lines zero file = []
read_lines (suc k) [] = []
read_lines (suc k) (c ∷ file) =
    let (line, rest) = fgets 255 (c ∷ file) in first_line (c_text line) ∷ read_lines k rest

-- One `addplaylist_last` for each line, with the blocks that `malloc` returns.
pub add_all : ℕ → List Blocks → Ptr → List Text → Cmd Ptr
add_all k bs list [] = pure list
add_all k [] list (_ ∷ _) = λ _. out_of_fuel
add_all k (b ∷ bs) list (t ∷ ts) = do list' ← add_last k b list t; add_all k bs list' ts

-- `readplaylist`: the file is none if `fopen` fails. The result and `*list`.
pub read_playlist : ℕ → ℕ → List Blocks → Option Text → Ptr → Cmd (Bool × Ptr)
unfolding read_lines add_all
read_playlist fuel k bs none list = pure (false, list)
read_playlist fuel k bs (some file) list = do
  list' ← add_all k bs list (read_lines fuel file)
  pure (true, list')
