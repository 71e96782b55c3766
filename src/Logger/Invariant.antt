-- ===== src/Logger/Invariant.antt =====
-- What holds in every reachable state of the logger.
use slogger.Base.{length, ◌≡◌, true, false, List, [], ◌∷◌, ◌++◌}
use slogger.Logger.{QueueData, Queue, initial, must_wait, set_capacity}
use slogger.Logger.Represents.{Represents}
use slogger.Logger.System.{
  failed, LoggerPc, sleepy, waiting, leaving, writing, ended, crashed, Phase, created, sized,
  running, flagged, signalled, joined, System,
}

-- The message that the logging thread has taken and not written.
abbrev pub in_hand : LoggerPc → List QueueData
in_hand (writing d) = d ∷ []
in_hand _ = []

-- The queue holds `xs`, as far as the phase lets it hold anything.
abbrev pub InPhase : Phase → Queue → List QueueData → Type 0
InPhase created q xs = (q ≡ initial) × (xs ≡ [])
InPhase sized q xs = (q ≡ set_capacity initial) × (xs ≡ [])
InPhase running q xs = (q.shutdown ≡ false) × Represents q xs
InPhase flagged q xs = (q.shutdown ≡ true) × Represents q xs
InPhase signalled q xs = (q.shutdown ≡ true) × Represents q xs
InPhase joined q xs = (q.shutdown ≡ true) × (q.size ≡ length xs)

-- Once the stop is signalled the logging thread is neither asleep nor about to sleep.
abbrev pub Awake : Phase → LoggerPc → Type 0
Awake signalled waiting = ⊥
Awake signalled sleepy = ⊥
Awake joined ended = Unit {0}
Awake joined failed = Unit {0}
Awake joined _ = ⊥
Awake _ _ = Unit {0}

-- What the logging thread may rely on behind its loop and at its end.
abbrev pub Local : LoggerPc → Queue → List QueueData → Type 0
Local leaving q xs = must_wait q ≡ false
Local ended q xs = (q.shutdown ≡ true) × (xs ≡ [])
Local crashed q xs = ⊥
Local _ q xs = Unit {0}

pub record Inv (s : System) (xs : List QueueData) : Type 0 where
  pub in_phase : InPhase s.phase s.queue xs
  pub awake : Awake s.phase s.logger
  pub local : Local s.logger s.queue xs
  pub order : s.accepted ≡ s.written ++ (in_hand s.logger ++ xs)
  pub sound : s.overrun ≡ false
