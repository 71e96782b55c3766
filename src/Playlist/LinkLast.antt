-- ===== src/Playlist/LinkLast.antt =====
-- The end of the list in `addplaylist_last`: its loop, and the link to the new node.
use slogger.Playlist.New.{IsFresh, entry, Added, with_node, new_texts, new_pair}
use slogger.Memory.{Ptr, null, Text, cell, Memory, done, Ensures, put_next}
use slogger.Base.{
  ℕ, zero, suc, ◌+◌, ◌<◌, ◌≡◌, refl, ◌≢◌, some, List, [], ◌∷◌, ◌++◌, arith, ◌∙◌, ap, ==-ne, length,
}
use slogger.Memory.Update.{
  mem-ne, Apart-one, Apart-two, NoDup, upd_self, upd_other, NoDup-ne, some_ne, NoDup-append,
}
use mathlib.Core.Path.{subst, sym}
use slogger.Memory.Commands
use slogger.Playlist.{Blocks, last_loop, link_last}
use slogger.Playlist.Entries.{
  Entry, IsPlaylist, addrs, strings, head_or, last_or, Seg, Allocated, addrs-append, strings-append,
  has-last, Seg-append, Seg-upd, Seg-last, Seg-put_next,
}
use slogger.Playlist.Strings.{Allocated-append}

pub last_loop_lem :
    (m : Memory) (k : ℕ) (prv : Ptr) (zs : List Entry) (count : ℕ)
    → Seg m.node prv zs null
    → NoDup (addrs zs)
    → length zs < k
    → last_loop k (head_or zs null) prv count m ≡ done (last_or zs prv, count + length zs) m
unfolding last_loop
last_loop_lem m zero prv zs count s d lt = absurd (omega arith)
last_loop_lem m (suc k) prv [] count s d lt = ap (λ n. done (prv, n) m) (omega arith)
last_loop_lem m (suc k) prv (z ∷ zs) count (e, s) d lt =
    rw
      (
        ==-ne z.addr null d.0,
        Commands.load-some m z.addr e,
        last_loop_lem m k z.addr zs (count + 1) s d.2 (omega arith),
      )
      (ap (λ n. done (last_or zs z.addr, n) m) (omega arith))

pub link_last_lem :
    {m : Memory} {head : Ptr} (b : Blocks) (path : Text) (w : Entry) (ws : List Entry)
    → IsPlaylist m head (w ∷ ws)
    → IsFresh b (w ∷ ws)
    → Ensures
        (Added m b path (w ∷ ws) ((w ∷ ws) ++ (entry b ∷ [])))
        (link_last (last_or ws w.addr) head b.node (with_node m b path null (last_or ws w.addr)))
unfolding link_last put_next
link_last_lem {m} {head} b path w ws is f =
    let last = last_or ws w.addr in
    let h = (with_node m b path null last).node in
    let ne : last ≢ null = NoDup-ne last (addrs (w ∷ ws)) is.nodes (has-last w ws) in
    let t = new_texts m b path (w ∷ ws) f is.owned in
    let s =
      Seg-upd m.node b.node (some (cell null b.path b.file last)) null (w ∷ ws) null f.node_new
        is.seg in
    rw
      (
        ==-ne last null ne,
        Commands.set_next-done (with_node m b path null last) last b.node
            (Seg-last h null w ws null s),
      )
      (record {
        list = record {
          first = is.first;
          seg =
              Seg-append (put_next h last b.node) null (w ∷ ws) (entry b ∷ []) null
                (Seg-put_next h null b.node w ws null is.nodes s)
                (
                  upd_other h last b.node _ (λ e.
                        mem-ne last b.node (addrs (w ∷ ws)) (has-last w ws) f.node_new (sym e))
                      ∙ upd_self m.node b.node _,
                  tt,
                );
          nodes = subst NoDup (sym (addrs-append (w ∷ ws) (entry b ∷ []))) (
              NoDup-append (addrs (w ∷ ws)) (b.node ∷ []) is.nodes (f.node_ne, refl, tt)
                (Apart-one (addrs (w ∷ ws)) b.node f.node_new));
          texts = subst NoDup (sym (strings-append (w ∷ ws) (entry b ∷ []))) (
              NoDup-append (strings (w ∷ ws)) (b.path ∷ b.file ∷ []) is.texts (new_pair f)
                (Apart-two (strings (w ∷ ws)) b.path b.file f.path_new f.file_new));
          owned =
              subst (Allocated (with_node m b path null last).text)
                (sym (strings-append (w ∷ ws) (entry b ∷ [])))
                (Allocated-append (with_node m b path null last).text (strings (w ∷ ws))
                  (b.path ∷ b.file ∷ []) t.kept_owned
                  (some_ne t.new_path, (some_ne t.new_file, tt)));
        };
        new_path = t.new_path;
        new_file = t.new_file;
        same = t.same;
      })
