-- ===== src/Playlist/Unlink.antt =====
-- Taking a node out of a chain, as writes to the store.
use slogger.Base.{◌≡◌, ◌≢◌, false, none, List, [], ◌∷◌, ◌++◌, arith}
use slogger.Memory.{null, Node, Store, upd, put_next, put_prv}
use slogger.Memory.Update.{has, NoDup, Apart, NoDup-split, Apart-left, Apart-right, Apart-append}
use slogger.Playlist.Entries.{
  Entry, addrs, last_or, Seg, has-last, addrs-append, Seg-append, Seg-split, Seg-upd, Seg-put_prv,
  Seg-put_next,
}

-- What distinct addresses say about the node `x` between `xs` and `ys`.
pub record Around (xs : List Entry) (x : Entry) (ys : List Entry) : Type 0 where
  pub before : NoDup (addrs xs)
  pub after : NoDup (addrs ys)
  pub apart : Apart (addrs xs) (addrs ys)
  pub not_before : has x.addr (addrs xs) ≡ false
  pub not_after : has x.addr (addrs ys) ≡ false
  pub ne_null : x.addr ≢ null

pub around :
    (xs : List Entry) (x : Entry) (ys : List Entry)
    → NoDup (addrs (xs ++ (x ∷ ys)))
    → Around xs x ys
around xs x ys d =
    let d' : NoDup (addrs xs ++ addrs (x ∷ ys)) = rw addrs-append at d in
    let (a, (n, o, b), c) = NoDup-split (addrs xs) (addrs (x ∷ ys)) d' in
    let (c', c'') = Apart-append (addrs xs) (x.addr ∷ []) (addrs ys) c in
    record {
      before = a;
      after = b;
      apart = c'';
      not_before = Apart-right x.addr (addrs xs) (x.addr ∷ []) c' (ground arith);
      not_after = o;
      ne_null = n;
    }

module _ (h : Store Node) (x : Entry) where
  -- The first node goes.
  pub unlink_first :
      (y : Entry) (ys : List Entry)
      → Around [] x (y ∷ ys)
      → Seg h null (x ∷ y ∷ ys) null
      → Seg (upd (put_prv h y.addr null) x.addr none) null (y ∷ ys) null
  unlink_first y ys a (e, s) =
      Seg-upd (put_prv h y.addr null) x.addr none null (y ∷ ys) null a.not_after
        (Seg-put_prv h x.addr null y ys null a.after s)

  -- The last node goes.
  pub unlink_last :
      (w : Entry) (ws : List Entry)
      → Around (w ∷ ws) x []
      → Seg h null ((w ∷ ws) ++ (x ∷ [])) null
      → Seg (upd (put_next h (last_or ws w.addr) null) x.addr none) null (w ∷ ws) null
  unlink_last w ws a s =
      let (front, back) = Seg-split h null (w ∷ ws) (x ∷ []) null s in
      Seg-upd (put_next h (last_or ws w.addr) null) x.addr none null (w ∷ ws) null a.not_before
        (Seg-put_next h null null w ws x.addr a.before front)

  -- A node with neighbours on both sides goes.
  pub unlink_middle :
      (w : Entry) (ws : List Entry) (y : Entry) (ys : List Entry)
      → Around (w ∷ ws) x (y ∷ ys)
      → Seg h null ((w ∷ ws) ++ (x ∷ y ∷ ys)) null
      → Seg
          (upd
            (put_prv (put_next h (last_or ws w.addr) y.addr) y.addr (last_or ws w.addr))
            x.addr
            none)
          null
          ((w ∷ ws) ++ (y ∷ ys))
          null
  unfolding put_prv put_next
  unlink_middle w ws y ys a s =
      let (front, (e, back)) = Seg-split h null (w ∷ ws) (x ∷ y ∷ ys) null s in
      let last = last_or ws w.addr in
      let h' = put_next h last y.addr in
      let h'' = put_prv h' y.addr last in
      let front' = Seg-put_next h null y.addr w ws x.addr a.before front in
      let front'' =
        Seg-upd h' y.addr _ null (w ∷ ws) y.addr
          (Apart-right y.addr (addrs (w ∷ ws)) (addrs (y ∷ ys)) a.apart (ground arith)) front' in
      let back' =
        Seg-upd h last _ x.addr (y ∷ ys) null
          (Apart-left last (addrs (w ∷ ws)) (addrs (y ∷ ys)) a.apart (has-last w ws)) back in
      let back'' = Seg-put_prv h' x.addr last y ys null a.after back' in
      Seg-append (upd h'' x.addr none) null (w ∷ ws) (y ∷ ys) null
        (Seg-upd h'' x.addr none null (w ∷ ws) y.addr a.not_before front'')
        (Seg-upd h'' x.addr none last (y ∷ ys) null a.not_after back'')
