-- ===== src/ThreadLoad/Files.antt =====
-- The log of a loader thread.
use slogger.ThreadLoad.{
  Run, run_stats, Target, misprints, ThLoader, max_path_length, name_size, local_file, thread_word,
  log_word, file_name, closes_log, returns, farewell, to_file, to_queue, target, Loaded, not_opened,
  ran, load_thread, fread_into, c_string, thload_run, print_rounds,
}
use slogger.Base.{
  ℕ, zero, suc, ◌≡◌, ◌≢◌, ◌≤◌, ◌<◌, refl, Bool, true, false, not, ◌||◌, Option, none, List, [], ◌∷◌,
  ◌++◌, arith, ◌==◌, if◌then◌else◌, length, length-append, replicate, ltb-true,
}
use slogger.Memory.{Text}

-- The strings fit the arrays of the structure, and an `int` has at most eleven characters.
pub record Fits (tid : Text) (th : ThLoader) : Type 0 where
  pub path : length th.log_path < max_path_length
  pub file : length th.logfile < max_path_length
  pub number : length tid ≤ 11

file_name-lt : (tid : Text) (th : ThLoader) → Fits tid th → length (file_name tid th) < name_size
unfolding file_name
file_name-lt tid th f = ground (
  arith,
  length-append th.log_path th.logfile,
  length-append th.log_path (thread_word ++ (tid ++ log_word)),
  length-append tid log_word,
)

-- There is a name exactly for a thread that is clubbed or has a file of its own.
file_name-empty :
    (tid : Text) (th : ThLoader)
    → not (length (file_name tid th) == 0) ≡ (th.clubbed || local_file th)
unfolding file_name
file_name-empty tid th = ground (
  arith,
  length-append th.log_path th.logfile,
  length-append th.log_path (thread_word ++ (tid ++ log_word)),
)

-- Where a thread that has a log of its own, or not, puts the messages of its loop.
abbrev pub routed : Run → Bool → Target
routed run_stats named = to_queue
routed _ false = to_queue
routed _ true = to_file

-- What `load_thread` comes to, if messages of level `LOG_INFO` are admitted, and if they are not.
abbrev pub loaded : (info can_open named : Bool) → Run → Loaded
loaded info can_open false run = ran run to_queue (if info then misprints else returns)
loaded info true true run = ran run (routed run true) (if info then misprints else closes_log)
loaded info false true run = not_opened

-- For a `ThLoader` whose strings fit its fields and whose `thread_log` is `NULL` at first, and a
-- thread number of at most eleven characters, `load_thread` never overruns its buffer for the file
-- name. A thread that is clubbed or has a file of its own returns at once if that cannot be
-- opened; else it calls `run`, whose messages go to the file, or to the queue if `run` is
-- `thload_run`. Any other thread calls `run`, whose messages go to the queue. When `run` comes
-- back what follows is undefined if messages of level `LOG_INFO` are admitted; if they are not,
-- the log is closed if there is one. No thread ever hands its log to `close_thread_log`.
pub load_thread_lem :
    (info can_open : Bool) (tid : Text) (th : ThLoader)
    → Fits tid th
    → load_thread info can_open tid th ≡ loaded info can_open (th.clubbed || local_file th) th.run
unfolding load_thread farewell target
load_thread_lem info can_open tid th f =
    rw
      (
        ltb-true (length (file_name tid th)) name_size (file_name-lt tid th f),
        file_name-empty tid th,
      )
      (ground arith)

-- No byte is zero.
abbrev pub NoZero : Text → Type 0
NoZero [] = Unit {0}
NoZero (c ∷ t) = (c ≢ 0) × NoZero t

-- Bytes without a zero, and behind them bytes that were never written or the end of the array.
c_string-none : (t : Text) (n : ℕ) → NoZero t → c_string (fread_into t (replicate n none)) ≡ none
c_string-none [] zero z = refl
c_string-none [] (suc n) z = refl
c_string-none (c ∷ t) zero z = refl
c_string-none (zero ∷ t) (suc n) (ne, z) = absurd (ne refl)
c_string-none (suc c ∷ t) (suc n) (ne, z) = rw (c_string-none t n z) refl

print_rounds-none :
    (file : Text) (files : List Text) (buf : List (Option ℕ))
    → c_string (fread_into file buf) ≡ none
    → print_rounds (file ∷ files) buf ≡ none
unfolding print_rounds
print_rounds-none file files buf e = rw (e, print_rounds) refl

-- When the first bytes that `thload_run` reads hold no zero byte its first message is undefined,
-- and so it is when the file cannot be opened.
pub thload_run-undefined :
    (opened : Bool) (file : Text) (files : List Text)
    → NoZero file
    → thload_run opened (file ∷ files) ≡ none
unfolding thload_run
thload_run-undefined false file files z = refl
thload_run-undefined true file files z =
    print_rounds-none file files (replicate 40 none) (c_string-none file 40 z)
