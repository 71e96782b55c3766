-- ===== src/Exec/Pipe.antt =====
-- `fork_dup2_exec`: which process holds which end of the pipe.
use slogger.Base.{
  ◌≢◌, ℕ, ◌≡◌, Bool, true, false, not, ◌||◌, Option, none, some, List, [], ◌∷◌, arith, ◌==◌,
  if◌then◌else◌,
}

pub data End : Type 0 where
  read_end write_end : End

abbrev pub is_end : End → End → Bool
is_end read_end read_end = true
is_end write_end write_end = true
is_end _ _ = false

abbrev pub other : End → End
other read_end = write_end
other write_end = read_end

-- A process: the descriptors of the pipe that it has open, the ends that stand for its standard
-- input and output (`none` is what it has inherited), and the signals that it ignores.
pub record Process : Type 0 where
  pub open_ends : List End
  pub stdin : Option End
  pub stdout : Option End
  pub ignored : List ℕ

abbrev pub without : End → List End → List End
without e [] = []
without e (x ∷ xs) = if is_end e x then without e xs else x ∷ without e xs

-- `pipe` and `close`.
abbrev pub pipe : Process → Process
pipe p = record p { open_ends = read_end ∷ write_end ∷ p.open_ends }

abbrev pub close : End → Process → Process
close e p = record p { open_ends = without e p.open_ends }

abbrev pub has_end : End → List End → Bool
has_end e [] = false
has_end e (x ∷ xs) = is_end e x || has_end e xs

-- `dup2` of an end to descriptor 1 or 0; it fails, and changes nothing, if the end is closed.
abbrev pub dup2_stdout : End → Process → Process
dup2_stdout e p = if has_end e p.open_ends then record p { stdout = some e } else p

abbrev pub dup2_stdin : End → Process → Process
dup2_stdin e p = if has_end e p.open_ends then record p { stdin = some e } else p

-- `SIGINT`, `SIGTERM` and `SIGTSTP`.
abbrev pub quiet_signals : List ℕ
quiet_signals = 2 ∷ 15 ∷ 20 ∷ []

-- The child up to `execvp`, which keeps descriptors and ignored signals.
abbrev pub child_side : ℕ → Process → Process
child_side type p =
    let q = record p { ignored = quiet_signals } in
    if type == b'r'
    then dup2_stdout write_end (close read_end q)
    else dup2_stdin read_end (close write_end q)

abbrev parent_side : ℕ → Process → Process
parent_side type p = if type == b'r' then close write_end p else close read_end p

-- No child, since `fork` failed and the process exits; or both processes and the end behind the
-- `FILE` that is returned.
pub data Forked : Type 0 where
  no_child : Forked
  forked : (child parent : Process) → (fp : End) → Forked

-- `fork_dup2_exec`; the flag says whether `fork` succeeds.
pub fork_dup2_exec : Bool → ℕ → Process → Forked
fork_dup2_exec ok type p =
    if not ok
    then no_child
    else forked (child_side type (pipe p)) (parent_side type (pipe p))
        (if type == b'r' then read_end else write_end)

abbrev pub is_stream : End → Option End → Bool
is_stream e none = false
is_stream e (some x) = is_end e x

-- Whether a process can use an end of the pipe.
abbrev pub holds : End → Process → Bool
holds e p = has_end e p.open_ends || (is_stream e p.stdin || is_stream e p.stdout)

-- What a fork is meant to be: what the program run by the child prints goes into the end that the
-- caller reads from, or what it reads comes from the end that the caller writes to, and its other
-- stream is inherited. The caller has the end behind `fp` alone and the child the other one alone,
-- so that either sees the end of the data when the other closes its end.
abbrev pub Redirected : (type : ℕ) → (child : Process) → (fp : End) → Type 0
Redirected type child fp =
    (type ≡ b'r' → (child.stdout ≡ some write_end) × (child.stdin ≡ none) × (fp ≡ read_end))
    × (type ≢ b'r' → (child.stdin ≡ some read_end) × (child.stdout ≡ none) × (fp ≡ write_end))

abbrev pub IsJoined : (type : ℕ) → Forked → Type 0
IsJoined type no_child = ⊥
IsJoined type (forked child parent fp) =
    Redirected type child fp
    × (holds fp parent ≡ true)
    × (holds (other fp) parent ≡ false)
    × (holds (other fp) child ≡ true)
    × (holds fp child ≡ false)

-- When `fork` succeeds in a process without ends of the pipe, `fork_dup2_exec` of type `r` makes
-- the writing end the standard output of the child and returns the reading end, and of any other
-- type it makes the reading end its standard input and returns the writing end; the other stream
-- is inherited; the caller holds the end behind the `FILE` and not the other one, and the child
-- holds the other one and not that end.
pub fork_dup2_exec-IsJoined :
    (type : ℕ) (p : Process)
    → p.open_ends ≡ []
    → p.stdin ≡ none
    → p.stdout ≡ none
    → IsJoined type (fork_dup2_exec true type p)
unfolding fork_dup2_exec
fork_dup2_exec-IsJoined type p e i o = ground arith
