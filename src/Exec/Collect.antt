-- ===== src/Exec/Collect.antt =====
-- What `exec` collects from the pipe.
use slogger.Exec.Wait.{
  exits_zero, is_success-exits_zero, answers, AllAlive, fork_dup2_exec_result-returned,
}
use slogger.Exec.{
  exited, Output, Read, bytes, eof, resize, copy_to, append, capture, exec, finished, Answer,
  status, Status, is_final, fork_dup2_exec_result,
}
use slogger.Base.{
  ℕ, zero, suc, ◌+◌, ◌-◌, ◌^◌, ◌≤◌, ◌<◌, ◌≡◌, refl, ap, Bool, true, false, Option, none, some, List,
  [], ◌∷◌, ◌++◌, if◌then◌else◌, length, take, replicate, append-nil, append_assoc, length-append,
  arith, ltb-true,
}

-- The bytes of a block that is written throughout.
abbrev pub written : List ℕ → List (Option ℕ)
written [] = []
written (b ∷ bs) = some b ∷ written bs

abbrev pub joined : List (List ℕ) → List ℕ
joined [] = []
joined (c ∷ cs) = c ++ joined cs

-- Reads of the chunks, each with a `realloc` that succeeds.
abbrev pub reads : List (List ℕ) → List (Read × Bool)
reads [] = []
reads (c ∷ cs) = (bytes c, true) ∷ reads cs

abbrev pub output : List ℕ → Output
output bs = record { out = written bs; outsize = length bs }

length-written : (bs : List ℕ) → length (written bs) ≡ length bs
length-written [] = refl
length-written (b ∷ bs) = ap suc (length-written bs)

copy_to-fresh : (bs : List ℕ) → copy_to 0 bs (replicate (length bs) none) ≡ written bs
copy_to-fresh [] = refl
copy_to-fresh (b ∷ bs) = ap (λ r. some b ∷ r) (copy_to-fresh bs)

take_over : {A : Type 0} (n : ℕ) (xs : List A) → length xs ≤ n → take n xs ≡ xs
take_over zero [] le = refl
take_over zero (x ∷ xs) le = absurd (omega arith)
take_over (suc n) [] le = refl
take_over (suc n) (x ∷ xs) le = ap (λ r. x ∷ r) (take_over n xs (omega arith))

left_over : (old n : ℕ) → old + n - old ≡ n
left_over old n = omega arith

resize-written :
    (old : List ℕ) (n : ℕ) → resize (length old + n) (written old) ≡ written old ++ replicate n none
resize-written old n =
    rw
      (
        take_over (length old + n) (written old) (omega (arith, length-written old)),
        length-written old,
        left_over (length old) n,
      )
      refl

-- Bytes that are copied behind a block that has grown by their number.
copy_to-behind :
    (old bs : List ℕ)
    → copy_to (length old) bs (written old ++ replicate (length bs) none) ≡ written (old ++ bs)
copy_to-behind [] bs = copy_to-fresh bs
copy_to-behind (a ∷ old) [] = ap (λ r. some a ∷ r) (copy_to-behind old [])
copy_to-behind (a ∷ old) (b ∷ bs) = ap (λ r. some a ∷ r) (copy_to-behind old (b ∷ bs))

append-output : (old bs : List ℕ) → append true bs (output old) ≡ output (old ++ bs)
append-output old bs =
    rw (resize-written old (length bs), copy_to-behind old bs, length-append old bs) refl

-- Reads that all succeed leave the output with the bytes of all chunks behind those it had.
pub capture-reads :
    (cs : List (List ℕ)) (old : List ℕ) (rest : List (Read × Bool))
    → length (old ++ joined cs) < 2 ^ 31
    → capture (reads cs ++ rest) (output old) ≡ capture rest (output (old ++ joined cs))
unfolding capture
capture-reads [] old rest lt = rw (append-nil old) refl
capture-reads (c ∷ cs) old rest lt =
    rw
      (
        ltb-true (length old + length c) (2 ^ 31)
            (omega (arith, length-append c (joined cs), length-append old (c ++ joined cs))),
        append-output old c,
        capture-reads cs (old ++ c) rest (rw (append_assoc old c (joined cs)) lt),
        append_assoc old c (joined cs),
      )
      refl

-- When the child writes chunks of less than 2 ^ 31 bytes in all, every `realloc` succeeds, and the
-- child ends, `exec` gives back exactly the bytes that were written, in order, and their number;
-- for a child that did not exit with code 0 it returns -1, the output all the same.
pub exec-reads :
    (cs : List (List ℕ)) (ok : Bool) (more : List (Read × Bool)) (before : List Status) (s : Status)
    (rest : List Answer)
    → length (joined cs) < 2 ^ 31
    → AllAlive before
    → is_final s ≡ true
    → exec (reads cs ++ ((eof, ok) ∷ more)) (answers before ++ (status s ∷ rest))
      ≡ finished (if exits_zero s then some (length (joined cs)) else none) (output (joined cs))
unfolding exec capture
exec-reads cs ok more before s rest lt a f =
    rw
      (
        capture-reads cs [] ((eof, ok) ∷ more) lt,
        fork_dup2_exec_result-returned before s rest a f,
        is_success-exits_zero s,
      )
      refl

-- When `realloc` fails for the last chunk, of less than 2 ^ 31 bytes in all, and the child exits
-- with code 0, `exec` reports the number of all bytes, while the block ends before that chunk.
pub exec-overstated :
    (cs : List (List ℕ)) (c : List ℕ) (ok : Bool) (more : List (Read × Bool)) (rest : List Answer)
    → length (joined cs ++ c) < 2 ^ 31
    → exec (reads cs ++ ((bytes c, false) ∷ (eof, ok) ∷ more)) (status (exited 0) ∷ rest)
      ≡ finished
          (some (length (joined cs) + length c))
          (record { out = written (joined cs); outsize = length (joined cs) + length c })
unfolding exec capture fork_dup2_exec_result
exec-overstated cs c ok more rest lt =
    rw
      (
        capture-reads cs [] ((bytes c, false) ∷ (eof, ok) ∷ more)
            (omega (arith, length-append (joined cs) c)),
        ltb-true (length (joined cs) + length c) (2 ^ 31)
            (omega (arith, length-append (joined cs) c)),
      )
      refl
