-- ===== src/Memory/Keeps.antt =====
-- Commands that allocate no block at one address for a node and at one for a string.
use slogger.Memory.Update.{upd_self}
use slogger.Base.{
  Bool-cases, inl, inr, ap, sym, ◌≡◌, refl, ◌≢◌, Bool, true, false, none, some, arith, ◌==◌,
  if◌then◌else◌, Option,
}
use slogger.Memory.{
  Ptr, null, Text, Node, Store, Memory, Run, done, crash, out_of_fuel, Cmd, chain, ◌>>=◌, upd,
  put_next, put_prv, put_payload, load, set_next, set_prv, set_payload, read, free_node, free_text,
  new_node, new_text, Ensures,
}

-- What holds behind a run, if it ends.
abbrev pub Later : {A : Type 0} → (A → Memory → Type 0) → Run A → Type 0
Later P (done a m) = P a m
Later P crash = Unit {0}
Later P out_of_fuel = Unit {0}

pub Later-both :
    {A : Type 0} (P Q : A → Memory → Type 0) (run : Run A)
    → Ensures P run
    → Later Q run
    → Ensures (λ a m. P a m × Q a m) run
Later-both P Q (done a m) p q = (p, q)
Later-both P Q crash p q = p
Later-both P Q out_of_fuel p q = p

pub Later-all :
    {A B : Type 0} (P : B → A → Memory → Type 0) (run : Run A)
    → ((b : B) → Later (P b) run)
    → Later (λ a m. (b : B) → P b a m) run
Later-all P (done a m) f = f
Later-all P crash f = tt
Later-all P out_of_fuel f = tt

-- A place in the memory: for a node, or for a string.
pub data Spot : Type 0 where
  node_at text_at : Ptr → Spot

-- Nothing is allocated there.
abbrev pub Free : Spot → Memory → Type 0
Free (node_at p) m = m.node p ≡ none
Free (text_at p) m = m.text p ≡ none

module _ (s : Spot) where
  abbrev pub Stays : {A : Type 0} → Run A → Type 0
  Stays run = Later (λ _ m. Free s m) run

  abbrev pub Keeps : {A : Type 0} → Cmd A → Type 0
  Keeps c = (m : Memory) → Free s m → Stays (c m)

  pub chain-Stays :
      {A B : Type 0} (run : Run A) (k : A → Cmd B)
      → Stays run
      → ((a : A) → Keeps (k a))
      → Stays (chain run k)
  chain-Stays (done a m) k e f = f a m e
  chain-Stays crash k e f = tt
  chain-Stays out_of_fuel k e f = tt

  pub bind-Keeps :
      {A B : Type 0} (c : Cmd A) (k : A → Cmd B)
      → Keeps c
      → ((a : A) → Keeps (k a))
      → Keeps (c >>= k)
  bind-Keeps c k e f m free = chain-Stays (c m) k (e m free) f

  -- What a later command frees.
  pub after-Stays :
      {A B : Type 0} (run : Run A) (k : A → Cmd B)
      → ((a : A) (m : Memory) → Stays (k a m))
      → Stays (chain run k)
  after-Stays (done a m) k f = f a m
  after-Stays crash k f = tt
  after-Stays out_of_fuel k f = tt

  pub if-Keeps :
      {A : Type 0} (b : Bool) (c d : Cmd A) → Keeps c → Keeps d → Keeps (if b then c else d)
  if-Keeps true c d e f = e
  if-Keeps false c d e f = f

  pub load-Keeps : (a : Ptr) → Keeps (load a)
  unfolding load
  load-Keeps a m free = here (m.node a) free
    where
      here : (o : Option Node) → Free s m → Stays (elim o [ none ↦ crash | some n ↦ done n m ])
      here none e = tt
      here (some n) e = e

  pub read-Keeps : (a : Ptr) → Keeps (read a)
  unfolding read
  read-Keeps a m free = here (m.text a) free
    where
      here : (o : Option Text) → Free s m → Stays (elim o [ none ↦ crash | some n ↦ done n m ])
      here none e = tt
      here (some n) e = e

upd-present :
    {A : Type 0} (h : Store A) (a p : Ptr) (c : Option A) (x : A)
    → h a ≡ some x
    → h p ≡ none
    → upd h a c p ≡ none
unfolding upd
upd-present h a p c x here e = ground arith

upd-apart :
    {A : Type 0} (h : Store A) (a p : Ptr) (c : Option A) → a ≢ p → h p ≡ none → upd h a c p ≡ none
unfolding upd
upd-apart h a p c ne e = ground arith

-- A write to a node that is there, `free` among them.
write_node :
    (s : Spot) (m : Memory) (a : Ptr) (c : Option Node) (o : Option Node)
    → m.node a ≡ o
    → Free s m
    → Stays s (elim o [ none ↦ crash | some _ ↦ done tt (record m { node = upd m.node a c }) ])
write_node s m a c none e free = tt
write_node (node_at p) m a c (some x) e free = upd-present m.node a p c x e free
write_node (text_at p) m a c (some x) e free = free

write_text :
    (s : Spot) (m : Memory) (a : Ptr) (c : Option Text) (o : Option Text)
    → m.text a ≡ o
    → Free s m
    → Stays s (elim o [ none ↦ crash | some _ ↦ done tt (record m { text = upd m.text a c }) ])
write_text s m a c none e free = tt
write_text (text_at p) m a c (some x) e free = upd-present m.text a p c x e free
write_text (node_at p) m a c (some x) e free = free

pub set_next-Keeps : (s : Spot) (a q : Ptr) → Keeps s (set_next a q)
unfolding set_next put_next
set_next-Keeps s a q m free = write_node s m a _ (m.node a) refl free

pub set_prv-Keeps : (s : Spot) (a q : Ptr) → Keeps s (set_prv a q)
unfolding set_prv put_prv
set_prv-Keeps s a q m free = write_node s m a _ (m.node a) refl free

pub set_payload-Keeps : (s : Spot) (a b c : Ptr) → Keeps s (set_payload a b c)
unfolding set_payload put_payload
set_payload-Keeps s a b c m free = write_node s m a _ (m.node a) refl free

pub free_node-Keeps : (s : Spot) (a : Ptr) → Keeps s (free_node a)
unfolding free_node
free_node-Keeps s a m free = write_node s m a none (m.node a) refl free

pub free_text-Keeps : (s : Spot) (a : Ptr) → Keeps s (free_text a)
unfolding free_text
free_text-Keeps s a m free = write_text s m a none (m.text a) refl free

pub free_node-Stays : (a : Ptr) (m : Memory) → Stays (node_at a) (free_node a m)
unfolding free_node
free_node-Stays a m = freed (m.node a)
  where
    freed :
        (o : Option Node)
        → Stays
            (node_at a)
            (elim o [ none ↦ crash | some _ ↦ done tt (record m { node = upd m.node a none }) ])
    freed none = tt
    freed (some n) = upd_self m.node a none

pub free_text-Stays : (a : Ptr) (m : Memory) → Stays (text_at a) (free_text a m)
unfolding free_text
free_text-Stays a m = freed (m.text a)
  where
    freed :
        (o : Option Text)
        → Stays
            (text_at a)
            (elim o [ none ↦ crash | some _ ↦ done tt (record m { text = upd m.text a none }) ])
    freed none = tt
    freed (some t) = upd_self m.text a none

pub new_node-Keeps : (s : Spot) (a : Ptr) (n : Node) → s ≢ node_at a → Keeps s (new_node a n)
unfolding new_node
new_node-Keeps s a n ne m free = elim (Bool-cases (a == null)) [
  | inl z ↦ rw z tt
  | inr nz ↦ rw nz (written s ne free)
]
  where
    written :
        (s : Spot) → s ≢ node_at a → Free s m → Free s (record m { node = upd m.node a (some n) })
    written (node_at p) ne free = upd-apart m.node a p (some n) (λ e. ne (ap node_at (sym e))) free
    written (text_at p) ne free = free

pub new_text-Keeps : (s : Spot) (a : Ptr) (t : Text) → s ≢ text_at a → Keeps s (new_text a t)
unfolding new_text
new_text-Keeps s a t ne m free = elim (Bool-cases (a == null)) [
  | inl z ↦ rw z tt
  | inr nz ↦ rw nz (written s ne free)
]
  where
    written :
        (s : Spot) → s ≢ text_at a → Free s m → Free s (record m { text = upd m.text a (some t) })
    written (text_at p) ne free = upd-apart m.text a p (some t) (λ e. ne (ap text_at (sym e))) free
    written (node_at p) ne free = free
