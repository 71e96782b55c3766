-- ===== src/Exec.antt =====
-- spwan.c: what a child process writes to its pipe, and how the parent waits for it. The calls
-- `read`, `realloc` and `waitpid` are given by their answers.
pub mod Wait
pub mod Collect
pub mod Run
pub mod Pipe
pub mod Threads
mod Tests
use slogger.Base.{
  ℕ, zero, suc, ◌+◌, ◌-◌, ◌^◌, Bool, true, false, not, ◌&&◌, Option, none, some, List, [], ◌∷◌,
  ◌++◌, ◌==◌, ltb, if◌then◌else◌, length, take, drop, replicate,
}

-- What `waitpid` reports of the child, with the code or the signal.
pub data Status : Type 0 where
  exited killed stopped : ℕ → Status
  continued unexpected : Status

-- An answer of `waitpid`.
pub data Answer : Type 0 where
  failure : Answer
  status : Status → Answer

-- `WIFEXITED(status) || WIFSIGNALED(status)`.
abbrev pub is_final : Status → Bool
is_final (exited _) = true
is_final (killed _) = true
is_final _ = false

-- What `fork_dup2_exec_result` returns: -1 or the last status. It is `waiting` while no further
-- answer comes.
pub data Result : Type 0 where
  waiting failed : Result
  returned : Status → Result

-- A status word is 0 exactly when the child has exited with code 0.
abbrev pub is_success : Result → Bool
is_success (returned (exited code)) = code == 0
is_success _ = false

abbrev pub continues : Status → ℕ
continues (stopped _) = 1
continues _ = 0

-- `fork_dup2_exec_result`: the result and the number of `SIGCONT` it sends.
pub fork_dup2_exec_result : List Answer → Result × ℕ
fork_dup2_exec_result [] = (waiting, 0)
fork_dup2_exec_result (failure ∷ _) = (failed, 0)
fork_dup2_exec_result (status s ∷ answers) =
    let (r, n) = fork_dup2_exec_result answers in
    if is_final s then (returned s, continues s) else (r, continues s + n)

-- An answer of `read`: bytes, at least one; 0 at the end; or -1.
pub data Read : Type 0 where
  bytes : List ℕ → Read
  eof error : Read

-- `*out` and `*outsize`. A byte that was never written is `none`; `out == NULL` is the empty block.
pub record Output : Type 0 where
  pub out : List (Option ℕ)
  pub outsize : ℕ

-- A run of the loop in `exec`: left, still in `read`, or not followed any further, since `*outsize`
-- overflows, or `read` answers -1, which the loop takes for a number of bytes.
pub data Capture : Type 0 where
  captured : Output → Capture
  reading lost : Capture

-- `realloc` to `n` bytes that succeeds.
abbrev pub resize : ℕ → List (Option ℕ) → List (Option ℕ)
resize n xs = take n xs ++ replicate (n - length xs) none

-- `memcpy` of bytes to an offset.
abbrev pub copy_to : ℕ → List ℕ → List (Option ℕ) → List (Option ℕ)
copy_to i [] xs = xs
copy_to zero (b ∷ bs) [] = []
copy_to zero (b ∷ bs) (_ ∷ xs) = some b ∷ copy_to zero bs xs
copy_to (suc i) bs [] = []
copy_to (suc i) bs (x ∷ xs) = x ∷ copy_to i bs xs

-- The body of the loop, for the bytes `bs`: the flag is whether `realloc` succeeds.
abbrev pub append : Bool → List ℕ → Output → Output
append ok bs o = record {
  out = if ok then copy_to o.outsize bs (resize (o.outsize + length bs) o.out) else o.out;
  outsize = o.outsize + length bs;
}

-- The loop of `exec`, for the answers of `read` and of the `realloc` that follows each.
pub capture : List (Read × Bool) → Output → Capture
capture [] o = reading
capture ((eof, _) ∷ _) o = captured o
capture ((error, _) ∷ _) o = lost
capture ((bytes bs, ok) ∷ rest) o =
    let next = capture rest (append ok bs o) in
    if ltb (o.outsize + length bs) (2 ^ 31) then next else lost

abbrev pub no_output : Output
no_output = record { out = []; outsize = 0 }

-- `exec`: the result, `none` for -1, with the output.
pub data Executed : Type 0 where
  finished : Option ℕ → Output → Executed
  stuck fault : Executed

abbrev pub outcome : Capture → Result → Executed
outcome reading r = stuck
outcome lost r = fault
outcome (captured o) waiting = stuck
outcome (captured o) failed = finished none o
outcome (captured o) (returned s) =
    finished (if is_success (returned s) then some o.outsize else none) o

pub exec : List (Read × Bool) → List Answer → Executed
exec reads answers = outcome (capture reads no_output) (fork_dup2_exec_result answers).0

-- The loop of `exec_run`, for what `keeprunning` and `read` answer in each round: what it writes to
-- the log of the thread. A `read` of -1 makes `fwrite` run past the buffer.
pub data Logged : Type 0 where
  logged : List ℕ → Logged
  running beyond : Logged

pub exec_run : List (Bool × Read) → List ℕ → Logged
exec_run [] log = running
exec_run ((false, _) ∷ _) log = logged log
exec_run ((true, eof) ∷ _) log = logged log
exec_run ((true, error) ∷ _) log = beyond
exec_run ((true, bytes bs) ∷ rest) log = exec_run rest (log ++ bs)

-- What `exec_stop` does: whether it clears `keeprunning` and sends `SIGINT`, how many `SIGCONT` it
-- sends, and whether it joins the thread; it may wait for ever in `waitpid`.
pub record Stopped : Type 0 where
  pub interrupted : Bool
  pub conts : ℕ
  pub joined : Option Bool

abbrev joins : Result → Option Bool
joins waiting = none
joins r = some (is_success r)

pub exec_stop : (blocking : Bool) → List Answer → Stopped
exec_stop blocking answers =
    let (r, n) = fork_dup2_exec_result answers in
    record { interrupted = not blocking; conts = n; joined = joins r }
