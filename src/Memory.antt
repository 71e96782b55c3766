-- ===== src/Memory.antt =====
-- The heap of playlinklist.c: list nodes and character strings at addresses, and commands on it.
pub mod Update
pub mod Commands
pub mod Keeps
use slogger.Base.{ℕ, Bool, true, false, Option, none, some, List, ◌==◌, if◌then◌else◌}

abbrev pub Ptr : Type 0
Ptr = ℕ

abbrev pub null : Ptr
null = 0

-- A C string: its characters before the terminator.
abbrev pub Text : Type 0
Text = List ℕ

-- `struct LinkList`.
pub record Node : Type 0 where
  pub next : Ptr
  pub path : Ptr
  pub file : Ptr
  pub prv : Ptr

abbrev pub cell : Ptr → Ptr → Ptr → Ptr → Node
cell n p f b = record { next = n; path = p; file = f; prv = b }

abbrev pub Store : Type 0 → Type 0
Store A = Ptr → Option A

pub record Memory : Type 0 where
  pub node : Store Node
  pub text : Store Text

unfoldable pub upd : {A : Type 0} → Store A → Ptr → Option A → Store A
upd h p c a = if a == p then c else h a

-- A run ends with a value and a memory, in undefined behaviour, or for want of fuel.
pub data Run (A : Type 0) : Type 0 where
  done : A → Memory → Run A
  crash : Run A
  out_of_fuel : Run A

abbrev pub Cmd : Type 0 → Type 0
Cmd A = Memory → Run A

abbrev pub pure : {A : Type 0} → A → Cmd A
pure = done

module _ {A B : Type 0} where
  abbrev pub chain : Run A → (A → Cmd B) → Run B
  chain (done a m) k = k a m
  chain crash k = crash
  chain out_of_fuel k = out_of_fuel

  infixl 5 ◌>>=◌ ◌>>◌
  abbrev pub ◌>>=◌ : Cmd A → (A → Cmd B) → Cmd B
  c >>= k = λ m. chain (c m) k

  abbrev pub ◌>>◌ : Cmd A → Cmd B → Cmd B
  c >> d = c >>= λ _. d

-- A write to a field of a node that may not be there.
abbrev pub at_node : (Node → Node) → Option Node → Option Node
at_node f none = none
at_node f (some n) = some (f n)

unfoldable pub put_next : Store Node → Ptr → Ptr → Store Node
put_next h p q = upd h p (at_node (λ n. record n { next = q }) (h p))

unfoldable pub put_prv : Store Node → Ptr → Ptr → Store Node
put_prv h p q = upd h p (at_node (λ n. record n { prv = q }) (h p))

unfoldable pub put_payload : Store Node → Ptr → Ptr → Ptr → Store Node
put_payload h p a b = upd h p (at_node (λ n. record n { path = a; file = b }) (h p))

-- `*p`: undefined at an address that holds no node, `NULL` among them.
unfoldable pub load : Ptr → Cmd Node
load p m = elim (m.node p) [ none ↦ crash | some n ↦ done n m ]

-- `p->next = q`, `p->prv = q`, and `p->path = a; p->file = b`.
unfoldable pub set_next : Ptr → Ptr → Cmd (Unit {0})
set_next p q m = elim (m.node p) [
  | none ↦ crash
  | some _ ↦ done tt (record m { node = put_next m.node p q })
]

unfoldable pub set_prv : Ptr → Ptr → Cmd (Unit {0})
set_prv p q m = elim (m.node p) [
  | none ↦ crash
  | some _ ↦ done tt (record m { node = put_prv m.node p q })
]

unfoldable pub set_payload : Ptr → Ptr → Ptr → Cmd (Unit {0})
set_payload p a b m = elim (m.node p) [
  | none ↦ crash
  | some _ ↦ done tt (record m { node = put_payload m.node p a b })
]

-- The characters at `p`.
unfoldable pub read : Ptr → Cmd Text
read p m = elim (m.text p) [ none ↦ crash | some t ↦ done t m ]

-- `free`: undefined unless the block is allocated (`NULL` is not freed by this program).
unfoldable pub free_node : Ptr → Cmd (Unit {0})
free_node p m = elim (m.node p) [
  | none ↦ crash
  | some _ ↦ done tt (record m { node = upd m.node p none })
]

unfoldable pub free_text : Ptr → Cmd (Unit {0})
free_text p m = elim (m.text p) [
  | none ↦ crash
  | some _ ↦ done tt (record m { text = upd m.text p none })
]

-- `p = malloc(…)` and the writes that fill the block: `p` is what `malloc` returned, and a write
-- through `NULL` is undefined.
unfoldable pub new_node : Ptr → Node → Cmd (Unit {0})
new_node p n m = if p == null then crash else done tt (record m { node = upd m.node p (some n) })

unfoldable pub new_text : Ptr → Text → Cmd (Unit {0})
new_text p t m = if p == null then crash else done tt (record m { text = upd m.text p (some t) })

-- A run ends well, and with `P`.
abbrev pub Ensures : {A : Type 0} → (A → Memory → Type 0) → Run A → Type 0
Ensures P (done a m) = P a m
Ensures P crash = ⊥
Ensures P out_of_fuel = ⊥
