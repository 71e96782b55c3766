-- ===== src/Logger/Sink.antt =====
-- What the producers of messages rely on: something that holds at most 2048 messages, keeps them in
-- order and refuses the others. `pushMessage` on the ring of Logger.antt fills it, and so does the
-- channel of Logger/Channel.antt.
use slogger.Base.{
  ℕ, zero, suc, ◌≤◌, ◌<◌, ◌≡◌, refl, true, false, some, List, [], ◌∷◌, ◌++◌, arith, length,
  length-append, take, append_assoc, append-nil, ◌==◌, ◌||◌, ◌∙◌, sym, ap,
}
use native.Mathlib.Decide.{dec_lt}
use mathlib.Core.Path.{subst}
use slogger.Logger.{QueueData, Queue, max_capacity, push_message}
use slogger.Logger.Represents.{Represents}
use slogger.Logger.Send.{push_message-stored, push_message-warns}
use slogger.Logger.Channel.{Channel, push}

pub record Sink : Type 1 where
  pub State : Type 0
  pub Holds : State → List QueueData → Type 0
  pub send : QueueData → State → State
  pub accepts :
      {s : State} {xs : List QueueData} (d : QueueData)
      → Holds s xs
      → length xs < max_capacity
      → Holds (send d s) (xs ++ (d ∷ []))
  pub refuses :
      {s : State} {xs : List QueueData} (d : QueueData)
      → Holds s xs
      → length xs ≡ max_capacity
      → send d s ≡ s

take-short : (n : ℕ) (xs : List QueueData) → length xs ≤ n → take n xs ≡ xs
take-short zero [] h = refl
take-short zero (x ∷ xs) h = absurd (omega arith)
take-short (suc n) [] h = refl
take-short (suc n) (x ∷ xs) h = ap (λ ys. x ∷ ys) (take-short n xs (omega arith))

take-full : (n : ℕ) (xs ys : List QueueData) → length xs ≡ n → take n (xs ++ ys) ≡ xs
take-full zero [] ys h = refl
take-full zero (x ∷ xs) ys h = absurd (omega arith)
take-full (suc n) [] ys h = absurd (omega arith)
take-full (suc n) (x ∷ xs) ys h = ap (λ zs. x ∷ zs) (take-full n xs ys (omega arith))

module _ (k : Sink) where
  -- Messages that are sent one after the other while nobody receives.
  pub send_all : List QueueData → k.State → k.State
  send_all [] s = s
  send_all (d ∷ ds) s = send_all ds (k.send d s)

  -- A sink keeps the first 2048 of the messages that it holds and that are sent, in order.
  pub send_all-Holds :
      (ds : List QueueData) {s : k.State} {xs : List QueueData}
      → k.Holds s xs
      → length xs ≤ max_capacity
      → k.Holds (send_all ds s) (take max_capacity (xs ++ ds))
  unfolding send_all
  send_all-Holds [] {s} {xs} h le =
      subst (k.Holds s)
        (sym (ap (take max_capacity) (append-nil xs) ∙ take-short max_capacity xs le)) h
  send_all-Holds (d ∷ ds) {s} {xs} h le = elim (dec_lt (length xs) max_capacity) [
    | yes lt ↦
        subst (λ ys. k.Holds (send_all ds (k.send d s)) (take max_capacity ys))
          (append_assoc xs (d ∷ []) ds)
          (send_all-Holds ds (k.accepts d h lt) (omega (arith, length-append xs (d ∷ []))))
    | no ge ↦
        let full : length xs ≡ max_capacity = omega arith in
        subst (λ t. k.Holds (send_all ds t) (take max_capacity (xs ++ (d ∷ ds))))
          (sym (k.refuses d h full))
          (subst (k.Holds (send_all ds s))
            (take-full max_capacity xs ds full ∙ sym (take-full max_capacity xs (d ∷ ds) full))
            (send_all-Holds ds h le))
  ]

-- `pushMessage` on the started queue, before the stop.
abbrev pub push_bytes : QueueData → Queue → Queue
push_bytes d q = (push_message true (some d.str) d.size q).1

pub ring_accepts :
    {q : Queue} {xs : List QueueData} (d : QueueData)
    → q.shutdown ≡ false
    → Represents q xs
    → length xs < max_capacity
    → ((push_bytes d q).shutdown ≡ false) × Represents (push_bytes d q) (xs ++ (d ∷ []))
ring_accepts {q} {xs} d o rep lt =
    let n : q.size ≡ length xs = rep.size in
    let c : q.capacity ≡ max_capacity = rep.capacity in
    let room : (q.size == q.capacity || q.shutdown) ≡ false = ground arith in
    let (e, rep') = push_message-stored d.str d.size rep room in
    subst (λ t. (t.1.shutdown ≡ false) × Represents t.1 (xs ++ (d ∷ []))) (sym e) (o, rep')

pub ring_refuses :
    {q : Queue} {xs : List QueueData} (d : QueueData)
    → Represents q xs
    → length xs ≡ max_capacity
    → push_bytes d q ≡ q
ring_refuses {q} {xs} d rep full =
    let n : q.size ≡ length xs = rep.size in
    let c : q.capacity ≡ max_capacity = rep.capacity in
    let no_room : (q.size == q.capacity || q.shutdown) ≡ true = ground arith in
    ap (λ t. t.1) (push_message-warns d.str d.size no_room)

abbrev pub ring : Sink
ring = record {
  State = Queue;
  Holds = λ q xs. (q.shutdown ≡ false) × Represents q xs;
  send = push_bytes;
  accepts = λ d h lt. ring_accepts d h.0 h.1 lt;
  refuses = λ d h full. ring_refuses d h.1 full;
}

-- The channel, while it is open.
pub channel_accepts :
    {c : Channel} {xs : List QueueData} (d : QueueData)
    → c.shut ≡ false
    → c.items ≡ xs
    → length xs < max_capacity
    → ((push d c).1.shut ≡ false) × ((push d c).1.items ≡ xs ++ (d ∷ []))
unfolding push
channel_accepts {c} {xs} d o e lt =
    let room : (length c.items == max_capacity || c.shut) ≡ false = rw (e, o) (ground arith) in
    rw room (o, ap (λ ys. ys ++ (d ∷ [])) e)

pub channel_refuses :
    {c : Channel} {xs : List QueueData} (d : QueueData)
    → c.items ≡ xs
    → length xs ≡ max_capacity
    → (push d c).1 ≡ c
unfolding push
channel_refuses {c} {xs} d e full =
    let no_room : (length c.items == max_capacity || c.shut) ≡ true = rw (e, full) refl in
    rw no_room refl

abbrev pub channel_sink : Sink
channel_sink = record {
  State = Channel;
  Holds = λ c xs. (c.shut ≡ false) × (c.items ≡ xs);
  send = λ d c. (push d c).1;
  accepts = λ d h lt. channel_accepts d h.0 h.1 lt;
  refuses = λ d h full. channel_refuses d h.1 full;
}

-- When nobody receives, of the messages that `pushMessage`, whose `malloc` succeeds, is given one
-- after the other on a started queue that is open, the ring keeps, behind those that it holds, as
-- many as there is room for, in order, and no later one; the bounded channel keeps the same.
pub burst :
    {q : Queue} {xs : List QueueData} (ds : List QueueData)
    → q.shutdown ≡ false
    → Represents q xs
    → Represents (send_all ring ds q) (take max_capacity (xs ++ ds))
      × ((send_all channel_sink ds (record { items = xs; shut = false })).items
          ≡ take max_capacity (xs ++ ds))
burst {q} {xs} ds o rep =
    let fits : length xs ≤ max_capacity = omega (arith, rep.fits, rep.capacity) in
    ((send_all-Holds ring ds (o, rep) fits).1, (send_all-Holds channel_sink ds (refl, refl) fits).1)
