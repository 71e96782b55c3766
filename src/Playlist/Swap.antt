-- ===== src/Playlist/Swap.antt =====
-- `swapplayNode`: two neighbours exchange their strings, and the chain stays as it is.
use slogger.Memory.{crash, done, Ptr, null, Node, cell, Store, Memory, Ensures, put_payload}
use slogger.Base.{
  none, append_assoc, ◌≡◌, refl, Bool, true, false, some, List, [], ◌∷◌, ◌++◌, ◌==◌, ◌∙◌, ap,
  if◌then◌else◌, ==-ne,
}
use slogger.Memory.Update.{put_payload-present, NoDup, upd_self, some_ne, NoDup-swap}
use mathlib.Core.Path.{subst, sym}
use slogger.Memory.Commands
use slogger.Playlist.{swap_node, swap_next, swap_prv}
use slogger.Playlist.Entries.{
  Entry, IsPlaylist, addrs, strings, head_or, last_or, Seg, Allocated, strings-append,
  head_or-append, Seg-split, Seg-append, Seg-upd,
}
use slogger.Playlist.Unlink.{Around, around}
use slogger.Playlist.Strings.{Allocated-append, Allocated-split}

-- The entry `a` with the strings of `b`.
abbrev pub with_strings : Entry → Entry → Entry
with_strings a b = record a { path = b.path; file = b.file }

Seg-put_payload :
    (h : Store Node) (prv : Ptr) (xs : List Entry) (x b : Entry) (ys : List Entry)
    → Around xs x ys
    → Seg h prv (xs ++ (x ∷ ys)) null
    → Seg (put_payload h x.addr b.path b.file) prv (xs ++ (with_strings x b ∷ ys)) null
unfolding put_payload
Seg-put_payload h prv xs x b ys a s =
    let (front, (e, back)) = Seg-split h prv xs (x ∷ ys) null s in
    Seg-append _ prv xs (with_strings x b ∷ ys) null
      (Seg-upd h x.addr _ prv xs x.addr a.not_before front)
      (upd_self h x.addr _ ∙ rw e, Seg-upd h x.addr _ x.addr ys null a.not_after back)

addrs-with :
    (xs : List Entry) (x b : Entry) (ys : List Entry)
    → addrs (xs ++ (with_strings x b ∷ ys)) ≡ addrs (xs ++ (x ∷ ys))
addrs-with [] x b ys = refl
addrs-with (w ∷ ws) x b ys = ap (λ l. w.addr ∷ l) (addrs-with ws x b ys)

-- The list with the strings of its neighbours `a` and `b` exchanged.
abbrev pub exchanged : List Entry → Entry → Entry → List Entry → List Entry
exchanged xs a b ys = xs ++ (with_strings a b ∷ with_strings b a ∷ ys)

regroup : (xs : List Entry) (a : Entry) (ys : List Entry) → (xs ++ (a ∷ [])) ++ ys ≡ xs ++ (a ∷ ys)
regroup xs a ys = append_assoc xs (a ∷ []) ys

Seg-put_second :
    (h : Store Node) (xs : List Entry) (a b c : Entry) (ys : List Entry)
    → NoDup (addrs (xs ++ (a ∷ b ∷ ys)))
    → Seg h null (xs ++ (a ∷ b ∷ ys)) null
    → Seg (put_payload h b.addr c.path c.file) null (xs ++ (a ∷ with_strings b c ∷ ys)) null
Seg-put_second h xs a b c ys d s =
    let near =
      around (xs ++ (a ∷ [])) b ys (subst (λ l. NoDup (addrs l)) (sym (regroup xs a (b ∷ ys))) d) in
    subst (λ l. Seg (put_payload h b.addr c.path c.file) null l null)
      (regroup xs a (with_strings b c ∷ ys))
      (Seg-put_payload h null (xs ++ (a ∷ [])) b c ys near
        (subst (λ l. Seg h null l null) (sym (regroup xs a (b ∷ ys))) s))

-- The outcome of a swap: success, the strings exchanged, no string written, and no node moved.
pub record Swapped (m : Memory) (head : Ptr) (xs : List Entry) (a b : Entry) (ys : List Entry)
    (sel' : Ptr) (r : Bool × Ptr) (m' : Memory) : Type 0 where
  pub ok : r.0 ≡ true
  pub selected : r.1 ≡ sel'
  pub list : IsPlaylist m' head (exchanged xs a b ys)
  pub texts : m'.text ≡ m.text

module _ {m : Memory} {head : Ptr} (xs : List Entry) (a b : Entry) (ys : List Entry)
    (is : IsPlaylist m head (xs ++ (a ∷ b ∷ ys))) where
  near_a : Around xs a (b ∷ ys)
  near_a = around xs a (b ∷ ys) is.nodes

  at_a : m.node a.addr ≡ some (cell b.addr a.path a.file (last_or xs null))
  at_a = (Seg-split m.node null xs (a ∷ b ∷ ys) null is.seg).1.0

  at_b : m.node b.addr ≡ some (cell (head_or ys null) b.path b.file a.addr)
  at_b = (Seg-split m.node null xs (a ∷ b ∷ ys) null is.seg).1.1.0

  exchanged-IsPlaylist :
      (h : Store Node)
      → Seg h null (exchanged xs a b ys) null
      → IsPlaylist (record m { node = h }) head (exchanged xs a b ys)
  exchanged-IsPlaylist h s =
      let d : NoDup (strings xs ++ (a.path ∷ a.file ∷ b.path ∷ b.file ∷ strings ys)) =
        rw strings-append at is.texts in
      let o : Allocated m.text (strings xs ++ (a.path ∷ a.file ∷ b.path ∷ b.file ∷ strings ys)) =
        rw strings-append at is.owned in
      let (o1, (oa, (oa', (ob, (ob', o2))))) =
        Allocated-split m.text (strings xs) (a.path ∷ a.file ∷ b.path ∷ b.file ∷ strings ys) o in
      record {
        first =
            is.first
            ∙ (head_or-append xs (a ∷ b ∷ ys) null
                ∙ sym (head_or-append xs (with_strings a b ∷ with_strings b a ∷ ys) null));
        seg = s;
        nodes =
            rw
              (
                addrs-with xs a b (with_strings b a ∷ ys),
                ← regroup xs a (with_strings b a ∷ ys),
                addrs-with (xs ++ (a ∷ [])) b a ys,
                regroup xs a (b ∷ ys),
              )
              is.nodes;
        texts =
            rw strings-append (NoDup-swap (strings xs) a.path a.file b.path b.file (strings ys) d);
        owned = rw strings-append (
            Allocated-append m.text (strings xs) (b.path ∷ b.file ∷ a.path ∷ a.file ∷ strings ys) o1
              (ob, (ob', (oa, (oa', o2)))));
      }

  ne_a : (a.addr == null) ≡ false
  ne_a = ==-ne a.addr null near_a.ne_null

  ne_b : (b.addr == null) ≡ false
  ne_b = ==-ne b.addr null near_a.after.0

  Seg-next :
      Seg
        (put_payload (put_payload m.node a.addr b.path b.file) b.addr a.path a.file)
        null
        (exchanged xs a b ys)
        null
  Seg-next =
      Seg-put_second (put_payload m.node a.addr b.path b.file) xs (with_strings a b) b a ys
        (rw (addrs-with xs a b (b ∷ ys)) is.nodes)
        (Seg-put_payload m.node null xs a b (b ∷ ys) near_a is.seg)

  Seg-prv :
      Seg
        (put_payload (put_payload m.node b.addr a.path a.file) a.addr b.path b.file)
        null
        (exchanged xs a b ys)
        null
  Seg-prv =
      let d : NoDup (addrs (xs ++ (a ∷ with_strings b a ∷ ys))) =
        rw
          (
            ← regroup xs a (with_strings b a ∷ ys),
            addrs-with (xs ++ (a ∷ [])) b a ys,
            regroup xs a (b ∷ ys),
          )
          is.nodes in
      Seg-put_payload (put_payload m.node b.addr a.path a.file) null xs a b (with_strings b a ∷ ys)
        (around xs a (with_strings b a ∷ ys) d) (Seg-put_second m.node xs a b a ys is.nodes is.seg)

  abbrev pub selected_next : Ptr → Ptr
  selected_next sel =
      if sel == a.addr then b.addr else if sel == b.addr then last_or xs null else sel

  abbrev pub selected_prv : Ptr → Ptr
  selected_prv sel =
      if sel == b.addr then a.addr else if sel == a.addr then head_or ys null else sel

  -- On a play list `swapplayNode` of a node that has a next one exchanges the tracks of the two
  -- and nothing else, reports success, and moves `*selnode` as `selected_next` says.
  pub swap_node-next :
      (sel : Ptr)
      → Ensures (Swapped m head xs a b ys (selected_next sel)) (swap_node a.addr true sel m)
  unfolding swap_node swap_next
  swap_node-next sel =
      rw
        (
          Commands.load-some m a.addr at_a,
          ne_b,
          Commands.load-some m b.addr at_b,
          Commands.set_payload-done m a.addr b.path b.file (some_ne at_a),
          Commands.set_payload-done (record m { node = put_payload m.node a.addr b.path b.file })
              b.addr a.path a.file
              (put_payload-present m.node a.addr b.path b.file b.addr (some_ne at_b)),
        )
        (record {
          ok = refl;
          selected = refl;
          list = exchanged-IsPlaylist _ Seg-next;
          texts = refl;
        })

  -- On a play list `swapplayNode` backwards of a node that has one before it exchanges the tracks
  -- of the two and nothing else, reports success, and moves `*selnode` as `selected_prv` says.
  pub swap_node-prv :
      (sel : Ptr)
      → Ensures (Swapped m head xs a b ys (selected_prv sel)) (swap_node b.addr false sel m)
  unfolding swap_node swap_prv
  swap_node-prv sel =
      rw
        (
          Commands.load-some m b.addr at_b,
          ne_a,
          Commands.load-some m a.addr at_a,
          Commands.set_payload-done m b.addr a.path a.file (some_ne at_b),
          Commands.set_payload-done (record m { node = put_payload m.node b.addr a.path a.file })
              a.addr b.path b.file
              (put_payload-present m.node b.addr a.path a.file a.addr (some_ne at_a)),
        )
        (record { ok = refl; selected = refl; list = exchanged-IsPlaylist _ Seg-prv; texts = refl })

-- `swapplayNode` of `NULL`.
pub swap_node-null :
    (m : Memory) (next : Bool) (sel : Ptr) → m.node null ≡ none → swap_node null next sel m ≡ crash
unfolding swap_node
swap_node-null m next sel nothing = rw (Commands.load-none m null nothing) refl

-- `swapplayNode` of the last node forwards, and of the first one backwards.
pub swap_node-last :
    (m : Memory) (addr sel : Ptr) {p f v : Ptr}
    → m.node addr ≡ some (cell null p f v)
    → swap_node addr true sel m ≡ done (false, sel) m
unfolding swap_node swap_next
swap_node-last m addr sel e = rw (Commands.load-some m addr e) refl

pub swap_node-first :
    (m : Memory) (addr sel : Ptr) {p f v : Ptr}
    → m.node addr ≡ some (cell v p f null)
    → swap_node addr false sel m ≡ done (false, sel) m
unfolding swap_node swap_prv
swap_node-first m addr sel e = rw (Commands.load-some m addr e) refl
