-- ===== src/Common/Config.antt =====
-- `set_log_type`.
use slogger.Base.{◌≡◌, refl, true, false, [], ◌∷◌, arith}
use slogger.Memory.{Text}
use slogger.Playlist.FileName.{text_eq}
use slogger.Common.{
  LogType, adbshell, logcat, serial, adbshell_name, logcat_name, serial_name, set_log_type,
}

pub text_eq-true : (a b : Text) → text_eq a b ≡ true → a ≡ b
text_eq-true [] [] e = refl
text_eq-true [] (y ∷ b) e = ground arith
text_eq-true (x ∷ a) [] e = ground arith
text_eq-true (x ∷ a) (y ∷ b) e = ground (arith, text_eq-true a b)

pub text_eq_refl : (a : Text) → text_eq a a ≡ true
text_eq_refl [] = refl
text_eq_refl (x ∷ a) = ground (arith, text_eq_refl a)

-- The text that selects a type of output other than the default.
abbrev pub Selects : Text → LogType → Type 0
Selects config logcat = config ≡ logcat_name
Selects config serial = config ≡ serial_name
Selects config adbshell =
    (text_eq config logcat_name ≡ false) × (text_eq config serial_name ≡ false)

module _ (config : Text) where
  shell-logcat : text_eq config adbshell_name ≡ true → text_eq config logcat_name ≡ false
  shell-logcat e = rw (text_eq-true config adbshell_name e) refl

  shell-serial : text_eq config adbshell_name ≡ true → text_eq config serial_name ≡ false
  shell-serial e = rw (text_eq-true config adbshell_name e) refl

  logcat-serial : text_eq config logcat_name ≡ true → text_eq config serial_name ≡ false
  logcat-serial e = rw (text_eq-true config logcat_name e) refl

  logcat_self : config ≡ logcat_name → text_eq config logcat_name ≡ true
  logcat_self e = rw e refl

  serial_self : config ≡ serial_name → text_eq config serial_name ≡ true
  serial_self e = rw e refl

  -- `set_log_type` always succeeds; it selects LOGCAT and SERIAL exactly for their names, and
  -- ADBSHELL exactly for every other text.
  pub set_log_type-Selects :
      (t : LogType)
      → ((set_log_type config).0 ≡ t → Selects config t)
        × (Selects config t → set_log_type config ≡ (t, 0))
  unfolding set_log_type
  set_log_type-Selects adbshell =
      (λ e. ground (arith, shell-logcat, shell-serial), λ s. ground arith)
  set_log_type-Selects logcat = (
    λ e. text_eq-true config logcat_name (ground (arith, shell-logcat)),
    λ s. ground (arith, logcat_self s, shell-logcat),
  )
  set_log_type-Selects serial = (
    λ e. text_eq-true config serial_name (ground arith),
    λ s. ground (arith, serial_self s, shell-serial, logcat-serial),
  )
