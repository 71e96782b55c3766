-- ===== src/Memory/Commands.antt =====
-- The commands of Memory.antt where they are defined, and where they are not.
use slogger.Memory.{
  Run, out_of_fuel, Cmd, Ensures, chain, Ptr, null, Text, Node, Memory, done, crash, upd, put_next,
  put_prv, put_payload, load, set_next, set_prv, set_payload, read, free_node, free_text, new_node,
  new_text,
}
use slogger.Base.{◌≡◌, ◌≢◌, none, some, arith}

module _ (m : Memory) (p : Ptr) where
  pub load-some : {n : Node} → m.node p ≡ some n → load p m ≡ done n m
  unfolding load
  load-some e = ground arith

  pub load-none : m.node p ≡ none → load p m ≡ crash
  unfolding load
  load-none e = ground arith

  pub set_next-done :
      (q : Ptr)
      → m.node p ≢ none
      → set_next p q m ≡ done tt (record m { node = put_next m.node p q })
  unfolding set_next
  set_next-done q here = ground arith

  pub set_prv-done :
      (q : Ptr) → m.node p ≢ none → set_prv p q m ≡ done tt (record m { node = put_prv m.node p q })
  unfolding set_prv
  set_prv-done q here = ground arith

  pub set_prv-none : (q : Ptr) → m.node p ≡ none → set_prv p q m ≡ crash
  unfolding set_prv
  set_prv-none q e = ground arith

  pub set_payload-done :
      (a b : Ptr)
      → m.node p ≢ none
      → set_payload p a b m ≡ done tt (record m { node = put_payload m.node p a b })
  unfolding set_payload
  set_payload-done a b here = ground arith

  pub read-some : {t : Text} → m.text p ≡ some t → read p m ≡ done t m
  unfolding read
  read-some e = ground arith

  pub free_node-done :
      m.node p ≢ none → free_node p m ≡ done tt (record m { node = upd m.node p none })
  unfolding free_node
  free_node-done here = ground arith

  pub free_text-done :
      m.text p ≢ none → free_text p m ≡ done tt (record m { text = upd m.text p none })
  unfolding free_text
  free_text-done here = ground arith

  pub new_node-done :
      (n : Node) → p ≢ null → new_node p n m ≡ done tt (record m { node = upd m.node p (some n) })
  unfolding new_node
  new_node-done n ne = ground arith

  pub new_text-done :
      (t : Text) → p ≢ null → new_text p t m ≡ done tt (record m { text = upd m.text p (some t) })
  unfolding new_text
  new_text-done t ne = ground arith

-- The rule for `>>=`.
pub bind :
    {A B : Type 0} (P : A → Memory → Type 0) (Q : B → Memory → Type 0) (r : Run A) (k : A → Cmd B)
    → Ensures P r
    → ((a : A) (m : Memory) → P a m → Ensures Q (k a m))
    → Ensures Q (chain r k)
bind P Q (done a m) k p next = next a m p
bind P Q crash k p next = p
bind P Q out_of_fuel k p next = p

pub mono :
    {A : Type 0} (P Q : A → Memory → Type 0) (r : Run A)
    → Ensures P r
    → ((a : A) (m : Memory) → P a m → Q a m)
    → Ensures Q r
mono P Q (done a m) p weaken = weaken a m p
mono P Q crash p weaken = p
mono P Q out_of_fuel p weaken = p
