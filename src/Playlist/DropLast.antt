-- ===== src/Playlist/DropLast.antt =====
-- The last node of a full list goes, in `addplaylist_front`.
use slogger.Memory.{Ptr, null, Node, Store, Memory, Ensures, upd, put_next}
use slogger.Playlist.Unlink.{around}
use slogger.Playlist.Strings.{freed}
use mathlib.Core.Path.{subst}
use slogger.Base.{◌≡◌, refl, true, false, none, some, List, [], ◌∷◌, ◌++◌, ◌∙◌, ap, append-nil}
use slogger.Memory.Commands
use slogger.Memory.Update.{has, NoDup, upd_other, some_ne, mem-ne}
use slogger.Playlist.{drop_last}
use slogger.Playlist.Entries.{
  Entry, IsPlaylist, strings, last_or, Seg, Allocated, Seg-split, Seg-upd, Seg-last, Seg-put_next,
}

abbrev pub all_but_last : List Entry → List Entry
all_but_last [] = []
all_but_last (x ∷ []) = []
all_but_last (x ∷ y ∷ zs) = x ∷ all_but_last (y ∷ zs)

-- The last node but one of `zs`, or `before` if there is none.
abbrev pub before_last : List Entry → Ptr → Ptr
before_last [] before = before
before_last (x ∷ []) before = before
before_last (x ∷ y ∷ []) before = x.addr
before_last (x ∷ y ∷ zs) before = before_last (y ∷ zs) before

pub last_entry : Entry → List Entry → Entry
last_entry x [] = x
last_entry x (y ∷ ys) = last_entry y ys

pub snoc-eq :
    (x : Entry) (xs : List Entry) → all_but_last (x ∷ xs) ++ (last_entry x xs ∷ []) ≡ x ∷ xs
unfolding last_entry
snoc-eq x [] = refl
snoc-eq x (y ∷ ys) = ap (λ l. x ∷ l) (snoc-eq y ys)

pub before_last-eq :
    (x y : Entry) (zs : List Entry) (before : Ptr)
    → before_last (x ∷ y ∷ zs) before ≡ last_or (all_but_last (y ∷ zs)) x.addr
before_last-eq x y [] before = refl
before_last-eq x y (z ∷ zs) before = before_last-eq y z zs before

-- The outcome of `drop_last` on the entries `(w ∷ ws) ++ (z ∷ [])`.
pub record Dropped (m : Memory) (w : Entry) (ws : List Entry) (r : Unit {0}) (m' : Memory)
    : Type 0 where
  pub list : IsPlaylist m' w.addr (w ∷ ws)
  pub same : (p : Ptr) → has p (strings (w ∷ ws)) ≡ true → m'.text p ≡ m.text p

pub Seg-last-node :
    (h : Store Node) (prv : Ptr) (x : Entry) (xs : List Entry) (stop : Ptr)
    → Seg h prv (x ∷ xs) stop
    → (n : Node) × (h (last_or xs x.addr) ≡ some n) × (n.next ≡ stop)
Seg-last-node h prv x [] stop (e, s) = (_, e, refl)
Seg-last-node h prv x (y ∷ ys) stop (e, s) = Seg-last-node h x.addr y ys stop s

pub drop_last_lem :
    {m : Memory} (w : Entry) (ws : List Entry) (z : Entry)
    → IsPlaylist m w.addr ((w ∷ ws) ++ (z ∷ []))
    → Ensures (Dropped m w ws) (drop_last (last_or ws w.addr) m)
unfolding drop_last put_next
drop_last_lem {m} w ws z is =
    let last = last_or ws w.addr in
    let a = around (w ∷ ws) z [] is.nodes in
    let f = freed (w ∷ ws) z [] m.text is.texts is.owned in
    let t = upd m.text z.path none in
    let (front, (e, back)) = Seg-split m.node null (w ∷ ws) (z ∷ []) null is.seg in
    let (q, el, next) = Seg-last-node m.node null w ws z.addr front in
    let s = Seg-upd m.node z.addr none null (w ∷ ws) z.addr a.not_before front in
    rw
      (
        Commands.load-some m last el,
        next,
        Commands.load-some m z.addr e,
        Commands.free_text-done m z.path f.path_first,
        Commands.free_text-done (record m { text = t }) z.file f.file_second,
        Commands.free_node-done (record m { text = upd t z.file none }) z.addr (some_ne e),
        Commands.set_next-done (record { node = upd m.node z.addr none; text = upd t z.file none })
            last null (Seg-last (upd m.node z.addr none) null w ws z.addr s),
      )
      (record {
        list = record {
          first = refl;
          seg = Seg-put_next (upd m.node z.addr none) null null w ws z.addr a.before s;
          nodes = a.before;
          texts = subst (λ l. NoDup (strings l)) (append-nil (w ∷ ws)) f.texts;
          owned =
              subst (λ l. Allocated (upd t z.file none) (strings l)) (append-nil (w ∷ ws))
                f.owned_too;
        };
        same = λ p i.
            upd_other t z.file p none (
              mem-ne p z.file (strings (w ∷ ws)) i
                (subst (λ l. has z.file (strings l) ≡ false) (append-nil (w ∷ ws)) f.not_file))
            ∙ upd_other m.text z.path p none (
                mem-ne p z.path (strings (w ∷ ws)) i
                  (subst (λ l. has z.path (strings l) ≡ false) (append-nil (w ∷ ws)) f.not_path));
      })
