-- ===== src/Common/Route.antt =====
-- Where `log_message` and `slog_message` put a message.
use slogger.Base.{
  ◌+◌, Bool-cases, inl, inr, ltb, zero, suc, ◌≡◌, ◌≤◌, ◌<◌, refl, ◌≢◌, ℤ, Bool, true, false, List,
  [], ◌∷◌, ◌++◌, arith, length, length-append, ◌==◌, ltb-true, ◌||◌,
}
use slogger.Common.{
  info, err, debug, warn, console, level_word, LogType, Label, label, admits, Line, file_line,
  log_message, strlen, store_size, overflow, pushed, slog_message,
}
use slogger.Logger.{Sent, put, QueueData, Queue, sent, stored}
use slogger.Memory.{Text}
use slogger.Logger.Represents.{Represents}
use slogger.Logger.Send.{push_message-stored}

-- No byte of a text is 0.
abbrev pub IsPlain : Text → Type 0
IsPlain [] = Unit {0}
IsPlain (c ∷ cs) = (c ≢ 0) × IsPlain cs

pub strlen-length : (t : Text) → IsPlain t → strlen t ≡ length t
strlen-length [] p = refl
strlen-length (zero ∷ t) (ne, p) = absurd (ne refl)
strlen-length (suc c ∷ t) (ne, p) = omega (arith, strlen-length t p)

level_word-length : (l : Label) → length (level_word l) ≡ 7
level_word-length info = refl
level_word-length err = refl
level_word-length debug = refl
level_word-length warn = refl

-- A line has eleven bytes more than the time, the tag and the text of the message.
file_line-length :
    (l : Label) (x : Line)
    → length (file_line l x) ≡ length x.stamp + (length x.tag + length x.body) + 11
file_line-length l x = omega (
  arith,
  level_word-length l,
  length-append x.stamp (level_word l ++ (x.tag ++ (b':' ∷ b' ' ∷ b' ' ∷ (x.body ++ (10 ∷ []))))),
  length-append (level_word l) (x.tag ++ (b':' ∷ b' ' ∷ b' ' ∷ (x.body ++ (10 ∷ [])))),
  length-append x.tag (b':' ∷ b' ' ∷ b' ' ∷ (x.body ++ (10 ∷ []))),
  length-append x.body (10 ∷ []),
)

pushed-overflow : {r : Sent × Queue} → pushed r ≢ overflow
pushed-overflow e = ground arith

-- What `log_message` writes to its file.
pub log_message-file :
    (t : LogType) (limit level : ℤ) (x : Line)
    → admits level limit ≡ true
    → (log_message t limit level true x).1 ≡ file_line (label level) x
unfolding log_message
log_message-file t limit level x a = rw a refl

module _ (t : LogType) (limit level : ℤ) (x : Line) (q : Queue) where
  abbrev record_of : QueueData
  record_of = record { str = file_line (label level) x; size = length (file_line (label level) x) }

  abbrev cut_record : QueueData
  cut_record = record { str = file_line (label level) x; size = strlen (file_line (label level) x) }

  -- A `slog_message` whose line fits and whose queue has room.
  pub slog_message-put :
      {xs : List QueueData}
      → admits level limit ≡ true
      → length (file_line (label level) x) < store_size
      → Represents q xs
      → (q.size == q.capacity || q.shutdown) ≡ false
      → slog_message t limit level true true x q
        ≡ (console t level x, pushed (sent stored false, put cut_record q))
  unfolding slog_message
  slog_message-put a lt r room =
      rw
        (
          a,
          ltb-true (length (file_line (label level) x)) store_size lt,
          (push_message-stored cut_record.str cut_record.size r room).0,
        )
        refl

  -- When the level is admitted, the line has no zero byte and fits the buffer, memory is there,
  -- and the started queue has room and is open, `slog_message` prints what `log_message` prints
  -- and puts behind the messages of the queue the line that `log_message` writes to its file, with
  -- its length as the size.
  pub slog_message-stored :
      (xs : List QueueData)
      → admits level limit ≡ true
      → IsPlain (file_line (label level) x)
      → length (file_line (label level) x) < store_size
      → Represents q xs
      → (q.size == q.capacity || q.shutdown) ≡ false
      → (q' : Queue) × (slog_message t limit level true true x q
          ≡ ((log_message t limit level true x).0, pushed (sent stored false, q')))
        × Represents q' (
            xs
            ++ (record {
              str = (log_message t limit level true x).1;
              size = length (log_message t limit level true x).1;
            }
                ∷ []))
  unfolding slog_message log_message
  slog_message-stored xs a p lt r room =
      let (e, r') = push_message-stored record_of.str record_of.size r room in
      rw
        (
          a,
          ltb-true (length (file_line (label level) x)) store_size lt,
          strlen-length (file_line (label level) x) p,
          e,
        )
        (_, refl, r')

  -- When the level is admitted and the buffer is allocated, `slog_message` writes behind its
  -- buffer exactly if the time, the tag and the text of the message have 2037 bytes or more in
  -- all.
  pub slog_message-overflow :
      (record_ok : Bool)
      → admits level limit ≡ true
      → ((slog_message t limit level true record_ok x q).1 ≡ overflow
          → 2037 ≤ length x.stamp + (length x.tag + length x.body))
        × (2037 ≤ length x.stamp + (length x.tag + length x.body)
            → (slog_message t limit level true record_ok x q).1 ≡ overflow)
  unfolding slog_message
  slog_message-overflow record_ok a =
      let size = file_line-length (label level) x in
      elim (Bool-cases (ltb (length (file_line (label level) x)) store_size)) [
        | inl fits ↦ rw (a, fits) (λ w. absurd (pushed-overflow w), λ le. absurd (ground arith))
        | inr long ↦ rw (a, long) (λ w. ground arith, λ le. refl)
      ]
