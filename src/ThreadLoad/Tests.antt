-- ===== src/ThreadLoad/Tests.antt =====
-- The theorems on threadload.c at concrete threads.
use slogger.ThreadLoad.{
  run1, ThLoader, load_thread, ran, to_file, closes_log, thload_run, thload_run1,
}
use slogger.Base.{◌≡◌, refl, true, false, none, [], ◌∷◌, arith}
use slogger.Condwait.{Timespec}
use slogger.ThreadLoad.Files.{Fits, load_thread_lem, thload_run-undefined}
use slogger.ThreadLoad.Rounds.{Finished, thload_run1-Finished}
use slogger.ThreadLoad.Stop.{Setting, Loader, opens, enters, test, Reach, here, next, runs, clears}
use slogger.ThreadLoad.Stop.Ends.{Stopping, Reach-Stopping}

abbrev clubbed_thread : ThLoader
clubbed_thread = record {
  run = run1;
  clubbed = true;
  log_path = b'/' ∷ b't' ∷ b'/' ∷ [];
  logfile = [];
}

clubbed_thread-Fits : Fits (b'7' ∷ []) clubbed_thread
clubbed_thread-Fits = record { path = omega arith; file = omega arith; number = omega arith }

load_thread_lem_example :
    load_thread false true (b'7' ∷ []) clubbed_thread ≡ ran run1 to_file closes_log
load_thread_lem_example = load_thread_lem false true (b'7' ∷ []) clubbed_thread clubbed_thread-Fits

thload_run-undefined_example : thload_run true ((b'4' ∷ b'2' ∷ []) ∷ []) ≡ none
thload_run-undefined_example = thload_run-undefined true (b'4' ∷ b'2' ∷ []) [] (ground arith)

abbrev now : Timespec
now = record { sec = 1700000000; nsec = 900000000 }

thload_run1-Finished_example :
    ((thload_run1 7 (110 ∷ 0 ∷ 110 ∷ []) now).0 ≡ 0 ∷ 1 ∷ 2 ∷ [])
    × Finished now 300000000 (thload_run1 7 (110 ∷ 0 ∷ 110 ∷ []) now).1
thload_run1-Finished_example =
    thload_run1-Finished 7 (110 ∷ 0 ∷ 110 ∷ []) now (omega arith) (omega arith) (omega arith)

abbrev setting : Setting
setting = record { info = false; named = true; run = run1 }

record Stopped : Type 0 where
  last : Loader
  reach : Reach setting last

-- The flag is cleared while the thread is before a message.
abbrev stopped : Stopped
stopped = record {
  last = _;
  reach =
      next (next (next (next here (runs (opens refl))) (runs (enters refl))) (runs (test refl)))
        (clears refl);
}

Reach-Stopping_example : Stopping setting stopped.last
Reach-Stopping_example = Reach-Stopping stopped.reach refl
