-- ===== src/ThreadLoad.antt =====
-- threadload.c: a thread that logs in a loop until it is stopped.
pub mod Files
pub mod Rounds
pub mod Stop
mod Tests
use slogger.Base.{
  ◌^◌, ℕ, zero, suc, ◌+◌, ◌-◌, ℤ, pos, Bool, true, false, not, ◌&&◌, ◌||◌, Option, none, some, List,
  [], ◌∷◌, ◌++◌, ◌==◌, ltb, if◌then◌else◌, length, take, drop, replicate,
}
use slogger.Memory.{Text}
use slogger.Condwait.{
  Timespec, Condwait, Call, back, blocked, undefined, condwait_int, condwait_wait, condwait_stop,
}

-- The functions of this file that `th->run` can point at.
pub data Run : Type 0 where
  run1 run_notused run_stats : Run  -- `thload_run1`, `thload_run_notused` and `thload_run`

-- The fields of `ThLoader` that the thread reads. `logPath` and `logfile` are arrays of 128 bytes.
pub record ThLoader : Type 0 where
  pub run : Run
  pub clubbed : Bool
  pub log_path : Text
  pub logfile : Text

-- `MAX_PATH_LENGTH`, and the size of `thread_log_filename`.
abbrev pub max_path_length : ℕ
max_path_length = 128

abbrev pub name_size : ℕ
name_size = 256

-- `th->localFile`, as `load_thread` sets it.
abbrev pub local_file : ThLoader → Bool
local_file th = not (length th.logfile == 0)

abbrev pub thread_word : Text
thread_word = b't' ∷ b'h' ∷ b'r' ∷ b'e' ∷ b'a' ∷ b'd' ∷ []

abbrev pub log_word : Text
log_word = b'.' ∷ b'l' ∷ b'o' ∷ b'g' ∷ []

-- `thread_log_filename`; `tid` is what `%d` prints for the thread.
pub file_name : (tid : Text) → ThLoader → Text
file_name tid th =
    if local_file th
    then th.log_path ++ th.logfile
    else if th.clubbed
    then th.log_path ++ (thread_word ++ (tid ++ log_word))
    else []

-- What `load_thread` does behind `run`: with a log it closes it after a message to the queue, else
-- it hands the log to `close_thread_log`, or only sends the message. Two of the three messages print
-- `pthread_self()` with `%s`, which is undefined if they are admitted.
pub data Farewell : Type 0 where
  closes_log pushes_log returns misprints : Farewell

-- `info` says whether messages of level `LOG_INFO` are admitted.
farewell : (info has_log clubbed : Bool) → Farewell
farewell info has_log clubbed =
    if has_log
    then (if info then misprints else closes_log)
    else if clubbed
    then pushes_log
    else if info
    then misprints
    else returns

-- Where the messages of the loop in `th->run` go: to the file, only to the console since the file is
-- NULL, or to the queue, where `thload_run` sends all of them.
pub data Target : Type 0 where
  to_file to_console to_queue : Target

target : Run → (has_log named : Bool) → Target
target run_stats has_log named = to_queue
target run1 has_log named = if not named then to_queue else if has_log then to_file else to_console
target run_notused has_log named =
    if not named then to_queue else if has_log then to_file else to_console

-- `load_thread`: the name overruns its buffer, the log cannot be opened, or `run` is called, with
-- what follows it if it comes back.
pub data Loaded : Type 0 where
  overrun not_opened : Loaded
  ran : Run → Target → Farewell → Loaded

-- `thread_log` is NULL at first; `can_open` says whether `fopen` succeeds.
pub load_thread : (info can_open : Bool) → (tid : Text) → ThLoader → Loaded
unfolding file_name farewell target
load_thread info can_open tid th =
    let name = file_name tid th in
    let has_log = not (length name == 0) in
    if not (ltb (length name) name_size)
    then overrun
    else if has_log && not can_open
    then not_opened
    else ran th.run (target th.run has_log (th.clubbed || local_file th))
        (farewell info has_log th.clubbed)

-- `close_thread_log` of a log with these bytes, `size` of which `ftell` reports and `fread` returns:
-- nothing is pushed, a byte before the buffer is written, or the bytes are pushed.
pub data Closed : Type 0 where
  nothing underrun : Closed
  pushed : Text → Closed

pub close_thread_log : Text → Closed
close_thread_log bytes =
    let sz = length bytes in
    if sz == 0
    then nothing
    else if ltb sz 2
    then underrun
    else pushed (take (sz - 2) bytes ++ (10 ∷ 10 ∷ []))

-- The loop of `thload_run1`, one round for each answer of `pthread_cond_timedwait`, until the flag is
-- cleared: the numbers in its messages, and what `condwait.stop` comes to. `ncount++` is undefined at
-- the greatest `int`.
pub wait_rounds : (me : ℕ) → List ℕ → (ncount : ℕ) → Condwait → List ℕ × Call
wait_rounds me [] ncount th = ([], condwait_stop me th)
wait_rounds me (r ∷ rs) ncount th =
    let again = λ (th' : Condwait). wait_rounds me rs (ncount + 1) th' in
    let round = after (condwait_wait me r (pos 0) (pos 100) th) ncount again in
    if ltb (ncount + 1) (2 ^ 31) then round else ([], undefined)
  where
    after : Call → ℕ → (Condwait → List ℕ × Call) → List ℕ × Call
    after (back _ th') n next = let (ms, c) = next th' in (n ∷ ms, c)
    after blocked n next = (n ∷ [], blocked)
    after undefined n next = (n ∷ [], undefined)

pub thload_run1 : (me : ℕ) → List ℕ → (now : Timespec) → List ℕ × Call
unfolding wait_rounds
thload_run1 me answers now = wait_rounds me answers 0 (condwait_int now)

-- `fread` into `string`, an array of 40 bytes; `none` is a byte that was never written.
abbrev pub fread_into : Text → List (Option ℕ) → List (Option ℕ)
fread_into [] buf = buf
fread_into (b ∷ bs) [] = []
fread_into (b ∷ bs) (_ ∷ buf) = some b ∷ fread_into bs buf

-- The characters that `%s` prints: up to the first zero byte. Behind the array, or at a byte that
-- was never written, there is nothing to print.
abbrev pub c_string : List (Option ℕ) → Option Text
c_string [] = none
c_string (none ∷ _) = none
c_string (some zero ∷ _) = some []
c_string (some (suc c) ∷ buf) = elim (c_string buf) [ none ↦ none | some t ↦ some (suc c ∷ t) ]

-- The texts that the loop of `thload_run` logs, one for each round, whose `fread` gets the bytes at
-- the start of the file; `none` is a run that is undefined.
pub print_rounds : List Text → List (Option ℕ) → Option (List Text)
print_rounds [] buf = some []
print_rounds (file ∷ files) buf =
    let buf' = fread_into file buf in
    let more = print_rounds files buf' in
    elim (c_string buf') [
      | none ↦ none
      | some t ↦ elim more [ none ↦ none | some ts ↦ some (t ∷ ts) ]
    ]

-- `thload_run`: it passes the result of `fopen` on without a test.
pub thload_run : (opened : Bool) → List Text → Option (List Text)
unfolding print_rounds
thload_run opened files = if opened then print_rounds files (replicate 40 none) else none
