-- ===== src/Common.antt =====
-- common.c: which output a log message goes to, in a build for a host other than Android.
pub mod Config
pub mod Route
mod Tests
use slogger.Base.{
  ℕ, zero, suc, ◌+◌, ◌≤◌, ◌<◌, ℤ, pos, negsuc, Bool, true, false, not, Option, none, some, List, [],
  ◌∷◌, ◌++◌, ◌==◌, ltb, if◌then◌else◌, length,
}
use slogger.Memory.{Text}
use slogger.Playlist.FileName.{text_eq}
use slogger.Logger.{Queue, Sent, push_message}

-- `log_type_t`.
pub data LogType : Type 0 where
  adbshell logcat serial : LogType

abbrev pub adbshell_name : Text
adbshell_name = b'a' ∷ b'd' ∷ b'b' ∷ b's' ∷ b'h' ∷ b'e' ∷ b'l' ∷ b'l' ∷ []

abbrev pub logcat_name : Text
logcat_name = b'l' ∷ b'o' ∷ b'g' ∷ b'c' ∷ b'a' ∷ b't' ∷ []

abbrev pub serial_name : Text
serial_name = b's' ∷ b'e' ∷ b'r' ∷ b'i' ∷ b'a' ∷ b'l' ∷ []

-- `set_log_type`: `log_type` and the result, `SUCCESS` in every case.
pub set_log_type : Text → LogType × ℕ
set_log_type config =
    if text_eq config adbshell_name
    then (adbshell, 0)
    else if text_eq config logcat_name
    then (logcat, 0)
    else if text_eq config serial_name
    then (serial, 0)
    else (adbshell, 0)

-- The cases of a `switch` on the level.
pub data Label : Type 0 where
  info err debug warn : Label

abbrev pub label : ℤ → Label
label (pos n) = if n == 2 then info else if n == 0 then err else if n == 3 then debug else warn
label (negsuc n) = warn

-- `log_lvl <= console_loglevel`.
abbrev pub admits : ℤ → ℤ → Bool
admits (pos a) (pos b) = not (ltb b a)
admits (pos a) (negsuc b) = false
admits (negsuc a) (pos b) = true
admits (negsuc a) (negsuc b) = not (ltb a b)

-- What the calls of the C library print: `stamp` is the time by `%s.%03d`, and `body` what
-- `vprintf` makes of `fmt` and its arguments.
pub record Line : Type 0 where
  pub stamp : Text
  pub tag : Text
  pub body : Text

abbrev pub level_word : Label → Text
level_word info = b' ' ∷ b' ' ∷ b'I' ∷ b'N' ∷ b'F' ∷ b'O' ∷ b' ' ∷ []
level_word err = b' ' ∷ b'E' ∷ b'R' ∷ b'R' ∷ b'O' ∷ b'R' ∷ b' ' ∷ []
level_word debug = b' ' ∷ b'D' ∷ b'E' ∷ b'B' ∷ b'U' ∷ b'G' ∷ b' ' ∷ []
level_word warn = b' ' ∷ b' ' ∷ b'W' ∷ b'A' ∷ b'R' ∷ b'N' ∷ b' ' ∷ []

-- The last digit of the colour: blue, red, yellow, green.
abbrev pub colour_digit : Label → ℕ
colour_digit info = b'4'
colour_digit err = b'1'
colour_digit debug = b'3'
colour_digit warn = b'2'

abbrev pub colour : Label → Text
colour l = 27 ∷ b'[' ∷ b'3' ∷ colour_digit l ∷ b'm' ∷ []

-- `COLOR_RESET`.
abbrev pub reset : Text
reset = 27 ∷ b'[' ∷ b'0' ∷ b'm' ∷ 10 ∷ []

abbrev pub console_line : Label → Line → Text
console_line l x =
    colour l ++ (x.stamp ++ (level_word l ++ (x.tag ++ (b':' ∷ b' ' ∷ (x.body ++ reset)))))

-- The `switch` on `log_type`: the case of LOGCAT is empty and falls through.
abbrev pub console : LogType → ℤ → Line → Text
console logcat level x = console_line (label level) x
console adbshell level x = console_line (label level) x
console serial level x = []

abbrev pub file_line : Label → Line → Text
file_line l x = x.stamp ++ (level_word l ++ (x.tag ++ (b':' ∷ b' ' ∷ b' ' ∷ (x.body ++ (10 ∷ [])))))

-- `log_message`: what goes to the console and to the file. The flag says whether `fp` is not NULL.
pub log_message : LogType → (limit level : ℤ) → (fp : Bool) → Line → Text × Text
log_message t limit level fp x =
    if admits level limit
    then (console t level x, (if fp then file_line (label level) x else []))
    else ([], [])

abbrev pub strlen : Text → ℕ
strlen [] = 0
strlen (zero ∷ _) = 0
strlen (suc c ∷ cs) = suc (strlen cs)

-- The size of the buffer of `slog_message`.
abbrev pub store_size : ℕ
store_size = 2048

-- What `slog_message` comes to behind the console: the level is not admitted, the buffer is not
-- allocated, `sprintf` writes behind it, or `pushMessage` is called.
pub data Slogged : Type 0 where
  silent no_memory overflow : Slogged
  pushed : Sent × Queue → Slogged

-- `slog_message`: `store_ok` and `record_ok` say whether the two calls of `malloc` succeed.
unfoldable pub slog_message :
    LogType → (limit level : ℤ) → (store_ok record_ok : Bool) → Line → Queue → Text × Slogged
slog_message t limit level store_ok record_ok x q =
    if not (admits level limit) then ([], silent) else (
      console t level x,
      (if not store_ok
          then no_memory
          else if ltb (length (file_line (label level) x)) store_size
          then pushed (
              push_message record_ok (some (file_line (label level) x))
                (strlen (file_line (label level) x)) q)
          else overflow),
    )
