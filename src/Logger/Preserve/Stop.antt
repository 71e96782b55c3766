-- ===== src/Logger/Preserve/Stop.antt =====
-- The steps of `slog_start` and `slog_stop` that change the queue.
use slogger.Base.{true, ◌≡◌, refl, false, List, arith}
use slogger.Logger.{QueueData, Queue, must_wait, set_capacity, allocate, close, release}
use slogger.Logger.Represents.{Represents}
use slogger.Logger.Refine.{start-Represents}
use slogger.Logger.Invariant.{Inv, InPhase, Local}
use mathlib.Core.Path.{subst}
use slogger.Logger.System.{
  returned, LoggerPc, leaving, ended, crashed, sized, running, flagged, signalled, joined, System,
}

allocated :
    (q : Queue) (xs : List QueueData)
    → InPhase sized q xs
    → (allocate q).shutdown ≡ false × Represents (allocate q) xs
unfolding allocate set_capacity
allocated q xs i = rw (i.0, i.1) (refl, start-Represents)

Local-allocate :
    (pc : LoggerPc) (q : Queue) (xs : List QueueData)
    → InPhase sized q xs
    → Local pc q xs
    → Local pc (allocate q) xs
unfolding set_capacity must_wait
Local-allocate leaving q xs i l = ground arith
Local-allocate ended q xs i l = ground arith
Local-allocate crashed q xs i l = l
Local-allocate _ q xs i l = tt

pub make_array-Inv :
    {s : System} {xs : List QueueData}
    → Inv s xs
    → s.phase ≡ sized
    → Inv (record s { queue = allocate s.queue; phase = running }) xs
make_array-Inv {s} {xs} v e =
    let i = subst (λ p. InPhase p s.queue xs) e v.in_phase in
    record {
      in_phase = allocated s.queue xs i;
      awake = tt;
      local = Local-allocate s.logger s.queue xs i v.local;
      order = v.order;
      sound = v.sound;
    }

closed-Represents : {q : Queue} {xs : List QueueData} → Represents q xs → Represents (close q) xs
unfolding close
closed-Represents r = record {
  capacity = r.capacity;
  array = r.array;
  front = r.front;
  size = r.size;
  fits = r.fits;
  window = r.window;
}

Local-close :
    (pc : LoggerPc) (q : Queue) (xs : List QueueData) → Local pc q xs → Local pc (close q) xs
unfolding close must_wait
Local-close pc q xs l = ground arith

pub flag-Inv :
    {s : System} {xs : List QueueData}
    → Inv s xs
    → s.phase ≡ running
    → Inv (record s { queue = close s.queue; phase = flagged }) xs
unfolding close
flag-Inv {s} {xs} v e =
    let i = subst (λ p. InPhase p s.queue xs) e v.in_phase in
    record {
      in_phase = (refl, closed-Represents i.1);
      awake = tt;
      local = Local-close s.logger s.queue xs v.local;
      order = v.order;
      sound = v.sound;
    }

pub join-Inv :
    {s : System} {xs : List QueueData}
    → Inv s xs
    → s.phase ≡ signalled
    → returned s.logger ≡ true
    → Inv (record s { queue = release s.queue; phase = joined }) xs
unfolding release
join-Inv {s} {xs} v e e' = record {
  in_phase = ground arith;
  awake = ground arith;
  local = ground arith;
  order = v.order;
  sound = v.sound;
}
