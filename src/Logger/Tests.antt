-- ===== src/Logger/Tests.antt =====
-- Runs of the queue and of its threads, and the theorems at them.
use slogger.Logger.Trace.{
  section, section_refines, sends, receives, shuts, answers, takes, waits, done, sections, actions,
  action, sections_refines,
}
use slogger.Logger.Restart.{Silenced, Follows, restarted, Follows-silent}
use slogger.Logger.System.{
  uses_cond, not_opened, Step, opened, waiting, sleepy, crashed, System, lock, test, take, write,
  logs, push, size_queue, make_array, flag, signal, join, Reach, here, next,
}
use slogger.Logger.{
  take_at, release, stored, message, QueueData, initial, enqueue_locked, must_wait, closed,
  dequeue_locked, set_capacity, allocate, close,
}
use slogger.Logger.View.{View, Started, Indistinguishable, view-Indistinguishable}
use mathlib.Core.Quot
use slogger.Logger.Sink.{send_all, ring, channel_sink, burst}
use slogger.Base.{◌+◌, ◌*◌, ◌≡◌, refl, ◌≢◌, false, List, [], ◌∷◌, ◌++◌}
use slogger.Logger.Represents.{Represents}
use slogger.Logger.Refine.{channel, enqueue_refines, dequeue_refines, start-Represents}
use slogger.Logger.Channel
use slogger.Logger.Invariant.{InPhase, in_hand}
use slogger.Logger.Drain.{Drained}
use slogger.Logger.Safety.{
  Reach-fifo, Faultless, Reach-Faultless, Reach-nothing_lost, Reach-awake, Reach-drains,
}

abbrev hello : QueueData
hello = record { str = b'h' ∷ b'i' ∷ []; size = 2 }

abbrev bye : QueueData
bye = record { str = b'b' ∷ b'y' ∷ b'e' ∷ []; size = 3 }

infixl 20 ◌▸◌
abbrev ◌▸◌ : {s t : System} → Reach s → Step s t → Reach t
r ▸ st = next r st

record Run : Type 0 where
  last : System
  reach : Reach last

-- One message, the stop, and the logging thread not yet scheduled.
abbrev stopped : Run
unfolding set_capacity allocate enqueue_locked close
stopped = record {
  last = _;
  reach =
      here
      ▸ logs (opened refl)
      ▸ size_queue refl
      ▸ make_array refl
      ▸ push hello refl refl
      ▸ flag refl
      ▸ signal refl refl;
}

-- The same, and the logging thread has run to its end.
abbrev finished : Run
unfolding stopped must_wait dequeue_locked
finished = record {
  last = _;
  reach =
      stopped.reach
      ▸ logs (lock refl)
      ▸ logs (test refl)
      ▸ logs (take refl)
      ▸ logs (write hello refl)
      ▸ logs (lock refl)
      ▸ logs (test refl)
      ▸ logs (take refl)
      ▸ join refl refl;
}

finished_file : finished.last.written ≡ hello ∷ []
unfolding finished
finished_file = refl

Reach-fifo_example :
    (xs : List QueueData) × (stopped.last.accepted
      ≡ stopped.last.written ++ (in_hand stopped.last.logger ++ xs))
    × InPhase stopped.last.phase stopped.last.queue xs
Reach-fifo_example = Reach-fifo stopped.reach

Reach-Faultless_example : Faultless finished.last
Reach-Faultless_example = Reach-Faultless finished.reach

Reach-nothing_lost_example : finished.last.written ≡ finished.last.accepted
unfolding finished
Reach-nothing_lost_example = Reach-nothing_lost finished.reach refl

Reach-awake_example : (stopped.last.logger ≢ waiting) × (stopped.last.logger ≢ sleepy)
unfolding stopped
Reach-awake_example = Reach-awake stopped.reach refl

Reach-drains_example : Drained stopped.last (4 * stopped.last.queue.size + 4)
unfolding stopped
Reach-drains_example = Reach-drains stopped.reach refl (λ e. cc) (λ e. cc)

enqueue_refines_example :
    let (p, q') = enqueue_locked hello (allocate (set_capacity initial)) in
    let (p', c) = Channel.push hello (channel (allocate (set_capacity initial)) []) in
    (p ≡ p') × Represents q' c.items × (q'.shutdown ≡ c.shut)
enqueue_refines_example = enqueue_refines hello start-Represents

dequeue_refines_example :
    (must_wait (allocate (set_capacity initial))
      ≡ Channel.blocks [] (allocate (set_capacity initial)).shutdown)
    × (must_wait (allocate (set_capacity initial)) ≡ false
        → ((dequeue_locked (allocate (set_capacity initial))).0 ≡ closed)
          × Represents (dequeue_locked (allocate (set_capacity initial))).1 []
          × ((dequeue_locked (allocate (set_capacity initial))).1.shutdown
              ≡ (allocate (set_capacity initial)).shutdown))
dequeue_refines_example = dequeue_refines [] start-Represents

infixl 20 ◌▹◌
abbrev ◌▹◌ :
    {s t u : System} → Follows s t → (x : (st : Step t u) × (uses_cond st ≡ false)) → Follows s u
r ▹ (st, f) = Follows.next r st f

-- A second start: the message is refused, and the thread ends with nothing written.
record Second (s : System) : Type 0 where
  last : System
  follows : Follows (restarted s) last

abbrev second : Second finished.last
unfolding finished must_wait dequeue_locked set_capacity allocate enqueue_locked release
second = record {
  last = _;
  follows =
      Follows.here
      ▹ (size_queue refl, refl)
      ▹ (make_array refl, refl)
      ▹ (push hello refl refl, refl)
      ▹ (logs (opened refl), refl)
      ▹ (logs (lock refl), refl)
      ▹ (logs (test refl), refl)
      ▹ (logs (take refl), refl);
}

Follows-silent_example : Silenced second.last
unfolding finished
Follows-silent_example = Follows-silent finished.reach refl refl second.follows

burst_example :
    Represents
      (send_all ring (hello ∷ bye ∷ []) (allocate (set_capacity initial)))
      (hello ∷ bye ∷ [])
    × ((send_all channel_sink (hello ∷ bye ∷ []) (record { items = []; shut = false })).items
        ≡ hello ∷ bye ∷ [])
unfolding allocate set_capacity
burst_example = burst (hello ∷ bye ∷ []) refl start-Represents

sections_refines_example :
    sections
      (sends hello ∷ receives ∷ receives ∷ shuts ∷ receives ∷ [])
      (allocate (set_capacity initial))
    ≡ answers stored ∷ takes (message hello) ∷ waits ∷ done ∷ takes closed ∷ []
unfolding Channel.push actions action allocate set_capacity
sections_refines_example =
    sections_refines (sends hello ∷ receives ∷ receives ∷ shuts ∷ receives ∷ []) start-Represents

abbrev fresh_ring : Started
fresh_ring = record {
  queue = allocate (set_capacity initial);
  messages = [];
  represents = start-Represents;
}

-- After one message has come and gone the ring begins at another slot.
abbrev sent_ring : Started
sent_ring = record {
  queue = (section (sends hello) fresh_ring.queue).1;
  messages = (action (sends hello) (channel fresh_ring.queue [])).1.items;
  represents = (section_refines (sends hello) start-Represents).1;
}

abbrev used_ring : Started
used_ring = record {
  queue = (section receives sent_ring.queue).1;
  messages = (action receives (channel sent_ring.queue sent_ring.messages)).1.items;
  represents = (section_refines receives sent_ring.represents).1;
}

view-Indistinguishable_example :
    (◌≡◌ {A = View} (Quot.mk fresh_ring) (Quot.mk used_ring)
      → Indistinguishable fresh_ring used_ring)
    × (Indistinguishable fresh_ring used_ring
        → ◌≡◌ {A = View} (Quot.mk fresh_ring) (Quot.mk used_ring))
view-Indistinguishable_example = view-Indistinguishable fresh_ring used_ring

-- The file cannot be opened, and a message stays in the queue.
abbrev unopened : Run
unfolding set_capacity allocate enqueue_locked close release
unopened = record {
  last = _;
  reach =
      here
      ▸ logs (not_opened refl)
      ▸ size_queue refl
      ▸ make_array refl
      ▸ push hello refl refl
      ▸ flag refl
      ▸ signal refl refl
      ▸ join refl refl;
}

-- After a second start the thread reads a slot of the new array that was never written.
abbrev stale : Second unopened.last
unfolding unopened must_wait dequeue_locked take_at set_capacity allocate
stale = record {
  last = _;
  follows =
      Follows.here
      ▹ (size_queue refl, refl)
      ▹ (make_array refl, refl)
      ▹ (logs (opened refl), refl)
      ▹ (logs (lock refl), refl)
      ▹ (logs (test refl), refl)
      ▹ (logs (take refl), refl);
}

stale-crashed : stale.last.logger ≡ crashed
unfolding stale
stale-crashed = refl
