-- ===== src/Main/Thin.antt =====
-- What `main` does with a play list once two tracks have been exchanged and put back.
use mathlib.Core.Path.{subst, sym}
use slogger.Base.{ℕ, ◌<◌, ◌≡◌, refl, ap, ◌∙◌, ◌≢◌, true, none, List, [], ◌∷◌, arith, length}
use slogger.Memory.{Store, null, Text, Memory, Ensures}
use slogger.Memory.Commands
use slogger.Memory.Update.{NoDup}
use slogger.Playlist.{remove_node}
use slogger.Playlist.Entries.{Entry, IsPlaylist, addrs}
use slogger.Playlist.Append.{rest}
use slogger.Playlist.File.Reading.{without_first, paths-rest}
use slogger.Playlist.Page.{settled, get_page_refines}
use slogger.Playlist.Remove.{Removal, page_after, remove_node-Removal, remove_node-null}
use slogger.Playlist.Display.{paths, text_at, display_list_lem}
use slogger.Playlist.Content.{Removal-paths}
use slogger.Main.{browse_and_save, show_rest, remove_second, thin_out, Ending}
use slogger.Main.Browse.{ending, browse_and_save_lem}

page_stays :
    (y c : Entry) (zs : List Entry)
    → NoDup (addrs (y ∷ c ∷ zs))
    → page_after (y ∷ []) c zs y.addr ≡ y.addr
page_stays y c [] d = ground arith
page_stays y c (z ∷ zs) d = ground arith

-- The rest of the scenario on a list whose first page is shown.
remove_second-Ending :
    {m : Memory} (k : ℕ) (y : Entry) (ys : List Entry)
    → IsPlaylist m y.addr (y ∷ ys)
    → length (y ∷ ys) < k
    → Ensures
        (λ e m'. e ≡ ending (paths m.text (y ∷ rest ys)))
        (remove_second true k y.addr y.addr m)
unfolding remove_second
remove_second-Ending {m} k y [] is lt =
    rw
      (
        Commands.load-some m y.addr is.seg.0,
        remove_node-null y.addr y.addr m,
        browse_and_save_lem k (y ∷ []) is (omega arith) lt,
      )
      refl
remove_second-Ending {m} k y (c ∷ zs) is lt = rw (Commands.load-some m y.addr is.seg.0) (
    Commands.bind (Removal m (y ∷ []) c zs y.addr) (λ e m'. e ≡ ending (paths m.text (y ∷ zs)))
      (remove_node y.addr c.addr y.addr m) _ (remove_node-Removal (y ∷ []) c zs is y.addr (λ e. cc))
      (λ r m' rem.
        let page : r.page ≡ y.addr = rem.page_moved ∙ page_stays y c zs is.nodes in
        subst
          (λ p.
            Ensures (λ e m''. e ≡ ending (paths m.text (y ∷ zs)))
              (browse_and_save true k r.list p m'))
          (sym page)
          (subst (λ run. Ensures (λ e m''. e ≡ ending (paths m.text (y ∷ zs))) run)
            (sym (browse_and_save_lem k (y ∷ zs) rem.list (omega arith) (omega arith)))
            (ap ending (Removal-paths is rem)))))

-- What `thin_out` comes to for the paths of the list without its first node.
abbrev pub without_second : List Text → List Text
without_second [] = []
without_second (t ∷ ts) = t ∷ without_first ts

abbrev pub thinned : List Text → List Text × Ending
thinned ts = (ts, ending (without_second ts))

paths-without :
    (t : Store Text) (y : Entry) (ys : List Entry)
    → paths t (y ∷ rest ys) ≡ text_at t y.path ∷ without_first (paths t ys)
paths-without t y ys = ap (λ l. text_at t y.path ∷ l) (paths-rest t ys)

settled_start : (n : ℕ) → (settled n 0).1 ≡ 0
settled_start n = ground arith

abbrev pub Thinned : List Text → List Text × Ending → Memory → Type 0
Thinned ts e m = e ≡ thinned ts

show_rest-Ending :
    {m : Memory} (k : ℕ) (y : Entry) (ys : List Entry)
    → IsPlaylist m y.addr (y ∷ ys)
    → length (y ∷ ys) < k
    → Ensures (Thinned (paths m.text (y ∷ ys))) (show_rest true k y.addr null m)
unfolding show_rest
show_rest-Ending {m} k y ys is lt =
    rw
      (
        display_list_lem k (y ∷ ys) is lt,
        get_page_refines (y ∷ ys) true none is tt,
        settled_start (length (y ∷ ys)),
      )
      (Commands.bind (λ e m'. e ≡ ending (paths m.text (y ∷ rest ys)))
        (Thinned (paths m.text (y ∷ ys))) (remove_second true k y.addr y.addr m) _
        (remove_second-Ending k y ys is lt)
        (λ e m' same.
          ap (λ e'. (paths m.text (y ∷ ys), e')) (same ∙ ap ending (paths-without m.text y ys))))

page_gone : (x y : Entry) (ys : List Entry) → x.addr ≢ null → page_after [] x (y ∷ ys) null ≡ null
page_gone x y ys ne = ground arith

pub thin_out-Ending :
    {m : Memory} (k : ℕ) (x y : Entry) (ys : List Entry)
    → IsPlaylist m x.addr (x ∷ y ∷ ys)
    → length (x ∷ y ∷ ys) < k
    → Ensures (Thinned (paths m.text (y ∷ ys))) (thin_out true k x.addr null m)
unfolding thin_out
thin_out-Ending {m} k x y ys is lt =
    Commands.bind (Removal m [] x (y ∷ ys) null) (Thinned (paths m.text (y ∷ ys)))
      (remove_node x.addr x.addr null m) _ (remove_node-Removal [] x (y ∷ ys) is null (λ e. cc))
      (λ r m' rem.
        let page : r.page ≡ null = rem.page_moved ∙ page_gone x y ys is.nodes.0 in
        let first : r.list ≡ y.addr = rem.list.first in
        let shown =
          show_rest-Ending {m = m'} k y ys (subst (λ p. IsPlaylist m' p (y ∷ ys)) first rem.list)
            (omega arith) in
        subst (λ ts. Ensures (Thinned ts) (show_rest true k r.list r.page m'))
          (Removal-paths is rem)
          (subst (λ p. Ensures (Thinned (paths m'.text (y ∷ ys))) (show_rest true k r.list p m'))
            (sym page)
            (subst (λ p. Ensures (Thinned (paths m'.text (y ∷ ys))) (show_rest true k p null m'))
              (sym first) shown)))
