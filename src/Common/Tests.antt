-- ===== src/Common/Tests.antt =====
-- One log message, and the theorems on common.c at it.
use slogger.Base.{◌≤◌, ◌+◌, length, ◌≡◌, refl, pos, negsuc, true, false, [], ◌∷◌, arith, replicate}
use slogger.Logger.{Queue, sent, stored, initial, allocate, set_capacity}
use slogger.Logger.Represents.{Represents}
use slogger.Logger.Refine.{start-Represents, start-room}
use slogger.Common.{logcat, serial, Line, log_message, overflow, pushed, slog_message}
use slogger.Common.Route.{slog_message-stored, slog_message-overflow}

abbrev line : Line
line = record { stamp = b'9' ∷ []; tag = b'T' ∷ []; body = b'h' ∷ b'i' ∷ [] }

abbrev long_line : Line
long_line = record { stamp = b'9' ∷ []; tag = b'T' ∷ []; body = replicate 2035 b'a' }

abbrev started : Queue
started = allocate (set_capacity initial)

slog_message-stored_example :
    (q' : Queue) × (slog_message logcat (pos 3) (pos 2) true true line started
      ≡ ((log_message logcat (pos 3) (pos 2) true line).0, pushed (sent stored false, q')))
    × Represents q' (
        record {
          str = (log_message logcat (pos 3) (pos 2) true line).1;
          size = length (log_message logcat (pos 3) (pos 2) true line).1;
        }
        ∷ [])
slog_message-stored_example =
    slog_message-stored logcat (pos 3) (pos 2) line started [] refl (ground arith) (omega arith)
      start-Represents start-room

slog_message-overflow_example :
    ((slog_message serial (pos 3) (negsuc 0) true true long_line started).1 ≡ overflow
      → 2037 ≤ 1 + (1 + length long_line.body))
    × (2037 ≤ 1 + (1 + length long_line.body)
        → (slog_message serial (pos 3) (negsuc 0) true true long_line started).1 ≡ overflow)
slog_message-overflow_example =
    slog_message-overflow serial (pos 3) (negsuc 0) long_line started true refl
