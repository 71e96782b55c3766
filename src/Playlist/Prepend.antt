-- ===== src/Playlist/Prepend.antt =====
-- `addplaylist_front`: a new node before the first one.
use slogger.Playlist.DropLast.{
  all_but_last, before_last, last_entry, snoc-eq, before_last-eq, Dropped, drop_last_lem,
}
use slogger.Playlist.New.{Added-from, IsFresh, entry, Added, with_node, make_node-done, new_texts}
use native.Mathlib.Nat.{zero-add}
use slogger.Memory.{
  set_prv, Ptr, null, Text, cell, Memory, done, crash, Ensures, chain, upd, put_prv, ◌>>◌, pure,
}
use slogger.Playlist.Unlink.{around}
use mathlib.Core.Path.{subst, sym}
use slogger.Base.{
  ℕ, zero, suc, ◌+◌, ◌<◌, ◌≡◌, refl, ◌≢◌, none, some, List, [], ◌∷◌, ◌++◌, arith, ◌==◌, ◌∙◌, ap,
  if◌then◌else◌, ==-ne, length, Bool-cases, inl, inr,
}
use slogger.Memory.Commands
use slogger.Memory.Update.{NoDup, upd_self, upd_other, NoDup-ne, some_ne, mem-ne}
use slogger.Playlist.{Blocks, max_play_list_len, make_node, front_loop, drop_last, add_front}
use slogger.Playlist.Entries.{
  Entry, IsPlaylist, addrs, head_or, last_or, Seg, has-last, Seg-upd, Seg-put_prv,
}

pub front_loop_lem :
    (m : Memory) (k : ℕ) (prv : Ptr) (zs : List Entry) (before : Ptr) (count : ℕ)
    → Seg m.node prv zs null
    → NoDup (addrs zs)
    → length zs < k
    → front_loop k (head_or zs null) before count m
      ≡ done (before_last zs before, count + length zs) m
unfolding front_loop
front_loop_lem m zero prv zs before count s d lt = absurd (omega arith)
front_loop_lem m (suc k) prv [] before count s d lt = ap (λ n. done (before, n) m) (omega arith)
front_loop_lem m (suc k) prv (x ∷ []) before count (e, s) d lt =
    rw
      (
        ==-ne x.addr null d.0,
        Commands.load-some m x.addr e,
        front_loop_lem m k x.addr [] before (count + 1) s d.2 (omega arith),
      )
      (ap (λ n. done (before, n) m) (omega arith))
front_loop_lem m (suc k) prv (x ∷ y ∷ []) before count (e, s) d lt =
    rw
      (
        ==-ne x.addr null d.0,
        Commands.load-some m x.addr e,
        ==-ne y.addr null d.2.0,
        Commands.load-some m y.addr s.0,
        front_loop_lem m k x.addr (y ∷ []) x.addr (count + 1) s d.2 (omega arith),
      )
      (ap (λ n. done (x.addr, n) m) (omega arith))
front_loop_lem m (suc k) prv (x ∷ y ∷ z ∷ zs) before count (e, s) d lt =
    rw
      (
        ==-ne x.addr null d.0,
        Commands.load-some m x.addr e,
        ==-ne y.addr null d.2.0,
        Commands.load-some m y.addr s.0,
        ==-ne z.addr null d.2.2.0,
        front_loop_lem m k x.addr (y ∷ z ∷ zs) before (count + 1) s d.2 (omega arith),
      )
      (ap (λ n. done (before_last (y ∷ z ∷ zs) before, n) m) (omega arith))

-- On the empty play list, with nothing at `NULL`, with fuel and fresh blocks `addplaylist_front`
-- writes through `NULL`, and the run is undefined.
pub add_front-empty :
    {m : Memory} {head : Ptr} (k : ℕ) (b : Blocks) (path : Text)
    → IsPlaylist m head []
    → IsFresh b []
    → m.node null ≡ none
    → add_front (suc k) b head path m ≡ crash
unfolding add_front upd front_loop
add_front-empty {m} k b path is f nothing =
    subst (λ p. add_front (suc k) b p path m ≡ crash) (sym is.first)
      (rw (
        make_node-done m b path null null f,
        Commands.set_prv-none (with_node m b path null null) null b.node
            (upd_other m.node b.node null _ (λ e. f.node_ne (sym e)) ∙ nothing),
      ))

-- What is in front of the last entry, and that entry.
abbrev pub kept_front : List Entry → List Entry
kept_front zs = if length zs == max_play_list_len then all_but_last zs else zs

push_front :
    {m : Memory} (b : Blocks) (path : Text) (w : Entry) (ws : List Entry)
    → IsPlaylist m w.addr (w ∷ ws)
    → IsFresh b (w ∷ ws)
    → Ensures
        (Added m b path (w ∷ ws) (entry b ∷ w ∷ ws))
        (chain (make_node b path w.addr null m) (λ _. set_prv w.addr b.node >> pure b.node))
unfolding put_prv
push_front {m} b path w ws is f =
    let n = cell w.addr b.path b.file null in
    let h = upd m.node b.node (some n) in
    let t = new_texts m b path (w ∷ ws) f is.owned in
    let s = Seg-upd m.node b.node (some n) null (w ∷ ws) null f.node_new is.seg in
    let apart : b.node ≢ w.addr =
      λ e. mem-ne w.addr b.node (addrs (w ∷ ws)) (ground arith) f.node_new (sym e) in
    rw
      (
        make_node-done m b path w.addr null f,
        Commands.set_prv-done (with_node m b path w.addr null) w.addr b.node (some_ne s.0),
      )
      (record {
        list = record {
          first = refl;
          seg = (
            upd_other h w.addr b.node _ apart ∙ upd_self m.node b.node (some n),
            Seg-put_prv h null b.node w ws null is.nodes s,
          );
          nodes = (f.node_ne, f.node_new, is.nodes);
          texts = (f.path_ne, ground arith, (f.file_ne, f.file_new, is.texts));
          owned = (some_ne t.new_path, (some_ne t.new_file, t.kept_owned));
        };
        new_path = t.new_path;
        new_file = t.new_file;
        same = t.same;
      })

-- An addition to a list whose strings are as they were in `m`, after the last entry has gone.
add_full :
    (m : Memory) (b : Blocks) (path : Text) (w : Entry) (ws : List Entry) (z : Entry)
    → IsPlaylist m w.addr ((w ∷ ws) ++ (z ∷ []))
    → IsFresh b (w ∷ ws)
    → Ensures (Added m b path (w ∷ ws) (entry b ∷ w ∷ ws)) (
        chain
          (drop_last (last_or ws w.addr) m)
          (λ _. make_node b path w.addr null >> (set_prv w.addr b.node >> pure b.node)))
add_full m b path w ws z is f =
    let new = entry b ∷ w ∷ ws in
    Commands.bind (Dropped m w ws) (Added m b path (w ∷ ws) new) (drop_last (last_or ws w.addr) m) _
      (drop_last_lem w ws z is)
      (λ r m' d.
        Commands.mono (Added m' b path (w ∷ ws) new) (Added m b path (w ∷ ws) new) _
          (push_front b path w ws d.list f) (λ head m''. Added-from d.same))

add_front-entries :
    (m : Memory) (k : ℕ) (b : Blocks) (path : Text) (x : Entry) (xs : List Entry)
    → IsPlaylist m x.addr (x ∷ xs)
    → length (x ∷ xs) < k
    → IsFresh b (kept_front (x ∷ xs))
    → Ensures
        (Added m b path (kept_front (x ∷ xs)) (entry b ∷ kept_front (x ∷ xs)))
        (add_front k b x.addr path m)
unfolding add_front
add_front-entries m k b path x [] is lt f =
    rw (front_loop_lem m k null (x ∷ []) null 0 is.seg is.nodes lt) (push_front b path x [] is f)
add_front-entries m k b path x (y ∷ zs) is lt f =
    let z = last_entry x (y ∷ zs) in
    let ws = all_but_last (y ∷ zs) in
    let bl = last_or ws x.addr in
    let count = front_loop_lem m k null (x ∷ y ∷ zs) null 0 is.seg is.nodes lt in
    elim (Bool-cases (length (x ∷ y ∷ zs) == max_play_list_len)) [
      | inl full ↦
          let f' : IsFresh b (x ∷ ws) =
            subst (λ c. IsFresh b (if c then x ∷ ws else x ∷ y ∷ zs)) full f in
          let is' : IsPlaylist m x.addr ((x ∷ ws) ++ (z ∷ [])) =
            subst (IsPlaylist m x.addr) (sym (snoc-eq x (y ∷ zs))) is in
          let ne : bl ≢ null =
            NoDup-ne bl (addrs (x ∷ ws)) (around (x ∷ ws) z [] is'.nodes).before (has-last x ws) in
          rw (count, zero-add, full, before_last-eq x y zs null, ==-ne bl null ne)
            (add_full m b path x ws z is' f')
      | inr room ↦
          let f' : IsFresh b (x ∷ y ∷ zs) =
            subst (λ c. IsFresh b (if c then x ∷ ws else x ∷ y ∷ zs)) room f in
          rw (count, zero-add, room) (push_front b path x (y ∷ zs) is f')
    ]

-- On a play list that is not empty, with fuel above its length and fresh blocks,
-- `addplaylist_front` puts an entry with the path and its file name before the others, after a
-- list of `MaxPlayListLen` entries has lost its last.
pub add_front-Added :
    {m : Memory} {head : Ptr} (k : ℕ) (b : Blocks) (path : Text) (x : Entry) (xs : List Entry)
    → IsPlaylist m head (x ∷ xs)
    → length (x ∷ xs) < k
    → IsFresh b (kept_front (x ∷ xs))
    → Ensures
        (Added m b path (kept_front (x ∷ xs)) (entry b ∷ kept_front (x ∷ xs)))
        (add_front k b head path m)
add_front-Added {m} {head} k b path x xs is lt f =
    subst
      (λ p.
        Ensures (Added m b path (kept_front (x ∷ xs)) (entry b ∷ kept_front (x ∷ xs)))
          (add_front k b p path m))
      (sym is.first)
      (add_front-entries m k b path x xs (subst (λ p. IsPlaylist m p (x ∷ xs)) is.first is) lt f)
