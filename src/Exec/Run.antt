-- ===== src/Exec/Run.antt =====
-- What the thread of `exec_start` writes to its log.
use slogger.Base.{ℕ, ◌≡◌, refl, Bool, true, false, List, [], ◌∷◌, ◌++◌, append-nil, append_assoc}
use slogger.Exec.{Read, bytes, eof, logged, exec_run}
use slogger.Exec.Collect.{joined}

-- Rounds in which the thread keeps running and reads a chunk.
abbrev pub rounds : List (List ℕ) → List (Bool × Read)
rounds [] = []
rounds (c ∷ cs) = (true, bytes c) ∷ rounds cs

-- The answers that end the loop: the flag is cleared, or the pipe is at its end.
abbrev pub IsLast : Bool × Read → Type 0
IsLast (false, r) = Unit {0}
IsLast (true, r) = r ≡ eof

run-last :
    (last : Bool × Read) (rest : List (Bool × Read)) (log : List ℕ)
    → IsLast last
    → exec_run (last ∷ rest) log ≡ logged log
unfolding exec_run
run-last (false, r) rest log l = refl
run-last (true, r) rest log l = rw l refl

-- The thread of `exec_start` appends to its log every chunk that it reads, in order, until the
-- flag is cleared or the pipe is at its end.
pub exec_run_lem :
    (cs : List (List ℕ)) (last : Bool × Read) (rest : List (Bool × Read)) (log : List ℕ)
    → IsLast last
    → exec_run (rounds cs ++ (last ∷ rest)) log ≡ logged (log ++ joined cs)
unfolding exec_run
exec_run_lem [] last rest log l = rw (append-nil log) (run-last last rest log l)
exec_run_lem (c ∷ cs) last rest log l =
    rw (exec_run_lem cs last rest (log ++ c) l, append_assoc log c (joined cs)) refl
