-- ===== src/Playlist/Append.antt =====
-- `addplaylist_last`: a new node behind the last one.
use slogger.Playlist.New.{IsFresh, entry, Added, make_node-done, new_texts, new_pair, Added-from}
use slogger.Memory.{◌>>◌, Ptr, null, Text, Memory, Ensures, chain, upd}
use slogger.Base.{
  Bool-cases, inl, inr, ℕ, ◌<◌, ◌≡◌, refl, Bool, true, false, ◌||◌, none, List, [], ◌∷◌, ◌++◌,
  arith, ◌==◌, ◌∙◌, if◌then◌else◌, length,
}
use native.Mathlib.Nat.{zero-add}
use slogger.Memory.Update.{mem-ne, has, upd_self, upd_other, some_ne}
use mathlib.Core.Path.{subst, sym}
use slogger.Memory.Commands
use slogger.Playlist.{Blocks, max_play_list_len, make_node, drop_first, link_last, add_last}
use slogger.Playlist.Entries.{Entry, IsPlaylist, strings, head_or, last_or, Seg-upd, Seg-put_prv}
use slogger.Playlist.Unlink.{around}
use slogger.Playlist.Strings.{freed}
use slogger.Playlist.LinkLast.{last_loop_lem, link_last_lem}

-- The list that `addplaylist_last` keeps: a full one loses its first entry.
abbrev pub rest : List Entry → List Entry
rest [] = []
rest (_ ∷ xs) = xs

abbrev pub kept_last : List Entry → List Entry
kept_last zs = if length zs == max_play_list_len then rest zs else zs

-- The outcome of `drop_first` on the entries `x ∷ y ∷ ys`.
record Dropped (m : Memory) (x y : Entry) (ys : List Entry) (r : Ptr) (m' : Memory) : Type 0 where
  second : r ≡ y.addr
  list : IsPlaylist m' y.addr (y ∷ ys)
  same : (p : Ptr) → has p (strings (y ∷ ys)) ≡ true → m'.text p ≡ m.text p

or_right : (a b : Bool) → (a || b) ≡ false → b ≡ false
or_right a b h = ground arith

drop_first_lem :
    {m : Memory} {head : Ptr} (x y : Entry) (ys : List Entry)
    → IsPlaylist m head (x ∷ y ∷ ys)
    → Ensures (Dropped m x y ys) (drop_first x.addr m)
unfolding drop_first upd
drop_first_lem {m} x y ys is =
    let a = around [] x (y ∷ ys) is.nodes in
    let f = freed [] x (y ∷ ys) m.text is.texts is.owned in
    let t = upd m.text x.file none in
    let s = Seg-upd m.node x.addr none x.addr (y ∷ ys) null a.not_after is.seg.1 in
    rw
      (
        Commands.load-some m x.addr is.seg.0,
        Commands.free_text-done m x.file f.file,
        Commands.free_text-done (record m { text = t }) x.path f.path,
        Commands.free_node-done (record m { text = upd t x.path none }) x.addr (some_ne is.seg.0),
        Commands.set_prv-done (record { node = upd m.node x.addr none; text = upd t x.path none })
            y.addr null (some_ne s.0),
      )
      (record {
        second = refl;
        list = record {
          first = refl;
          seg = Seg-put_prv (upd m.node x.addr none) x.addr null y ys null a.after s;
          nodes = a.after;
          texts = f.texts;
          owned = f.owned;
        };
        same = λ p i.
            upd_other t x.path p none (
              mem-ne p x.path (strings (y ∷ ys)) i
                (or_right (x.path == x.file) (has x.path (strings (y ∷ ys))) is.texts.1))
            ∙ upd_other m.text x.file p none (mem-ne p x.file (strings (y ∷ ys)) i is.texts.2.1);
      })

-- `addplaylist_last` behind its loop, on a full list.
add_full :
    (m : Memory) (b : Blocks) (path : Text) (x y : Entry) (ys : List Entry)
    → IsPlaylist m x.addr (x ∷ y ∷ ys)
    → IsFresh b (y ∷ ys)
    → Ensures (Added m b path (y ∷ ys) ((y ∷ ys) ++ (entry b ∷ []))) (
        chain (drop_first x.addr m) (λ head.
          make_node b path null (last_or ys y.addr) >> link_last (last_or ys y.addr) head b.node))
add_full m b path x y ys is f =
    let new = (y ∷ ys) ++ (entry b ∷ []) in
    Commands.bind (Dropped m x y ys) (Added m b path (y ∷ ys) new) (drop_first x.addr m) _
      (drop_first_lem x y ys is)
      (λ r m' d.
        rw (make_node-done m' b path null (last_or ys y.addr) f, d.second)
          (Commands.mono (Added m' b path (y ∷ ys) new) (Added m b path (y ∷ ys) new) _
            (link_last_lem b path y ys d.list f) (λ head m''. Added-from d.same)))

add_last-entries :
    (m : Memory) (k : ℕ) (b : Blocks) (path : Text) (zs : List Entry)
    → IsPlaylist m (head_or zs null) zs
    → length zs < k
    → IsFresh b (kept_last zs)
    → Ensures
        (Added m b path (kept_last zs) (kept_last zs ++ (entry b ∷ [])))
        (add_last k b (head_or zs null) path m)
unfolding add_last
add_last-entries m k b path [] is lt f =
    let t = new_texts m b path [] f tt in
    rw (last_loop_lem m k null [] 0 is.seg is.nodes lt, make_node-done m b path null null f)
      (record {
        list = record {
          first = refl;
          seg = (upd_self m.node b.node _, tt);
          nodes = (f.node_ne, refl, tt);
          texts = new_pair f;
          owned = (some_ne t.new_path, (some_ne t.new_file, tt));
        };
        new_path = t.new_path;
        new_file = t.new_file;
        same = t.same;
      })
add_last-entries m k b path (x ∷ []) is lt f =
    rw (last_loop_lem m k null (x ∷ []) 0 is.seg is.nodes lt, make_node-done m b path null x.addr f)
      (link_last_lem b path x [] is f)
add_last-entries m k b path (x ∷ y ∷ ys) is lt f =
    elim (Bool-cases (length (x ∷ y ∷ ys) == max_play_list_len)) [
      | inl full ↦
          let f' : IsFresh b (y ∷ ys) =
            subst (λ c. IsFresh b (if c then y ∷ ys else x ∷ y ∷ ys)) full f in
          rw (last_loop_lem m k null (x ∷ y ∷ ys) 0 is.seg is.nodes lt, zero-add, full)
            (add_full m b path x y ys is f')
      | inr room ↦
          let f' : IsFresh b (x ∷ y ∷ ys) =
            subst (λ c. IsFresh b (if c then y ∷ ys else x ∷ y ∷ ys)) room f in
          rw
            (
              last_loop_lem m k null (x ∷ y ∷ ys) 0 is.seg is.nodes lt,
              zero-add,
              room,
              make_node-done m b path null (last_or ys y.addr) f',
            )
            (link_last_lem b path x (y ∷ ys) is f')
    ]

-- On a play list, with fuel above its length and fresh blocks, `addplaylist_last` puts an entry
-- with the path and its file name behind the others, after a list of `MaxPlayListLen` entries has
-- lost its first.
pub add_last-Added :
    {m : Memory} {head : Ptr} (k : ℕ) (b : Blocks) (path : Text) (zs : List Entry)
    → IsPlaylist m head zs
    → length zs < k
    → IsFresh b (kept_last zs)
    → Ensures
        (Added m b path (kept_last zs) (kept_last zs ++ (entry b ∷ [])))
        (add_last k b head path m)
add_last-Added {m} {head} k b path zs is lt f =
    subst
      (λ p.
        Ensures (Added m b path (kept_last zs) (kept_last zs ++ (entry b ∷ [])))
          (add_last k b p path m))
      (sym is.first)
      (add_last-entries m k b path zs (subst (λ p. IsPlaylist m p zs) is.first is) lt f)
