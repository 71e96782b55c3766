-- ===== src/Playlist/Remove.antt =====
-- `removeplayNode` and `removeplaylist`.
use mathlib.Core.Path.{subst, sym}
use slogger.Playlist.Entries.{
  addrs-append, Entry, IsPlaylist, addrs, head_or, last_or, Seg, has-last, Seg-split, Seg-last,
}
use slogger.Memory.Update.{
  NoDup-cut, some_ne, put_next-present, put_prv-present, upd-none, NoDup, upd_self, upd_other,
  NoDup-ne,
}
use slogger.Base.{
  ==-ne, append-nil, ◌≡◌, refl, ◌≢◌, true, false, none, some, List, [], ◌∷◌, ◌++◌, arith, ◌==◌, ◌∙◌,
  if◌then◌else◌,
}
use slogger.Memory.{
  Cmd, pure, ◌>>◌, Ptr, null, Node, cell, Store, Memory, done, crash, Ensures, upd, put_next, load,
  free_text, free_node,
}
use slogger.Memory.Commands
use slogger.Playlist.{Removed, next_page, unlink, remove_node}
use slogger.Playlist.Unlink.{Around, around, unlink_first, unlink_last, unlink_middle}
use slogger.Playlist.Strings.{freed}

-- Where `*pagehead` points when `x`, between `xs` and `ys`, goes: to the next node if there is one.
abbrev pub page_after : List Entry → Entry → List Entry → Ptr → Ptr
page_after xs x [] page = if x.addr == page then last_or xs null else page
page_after xs x (y ∷ ys) page = if x.addr == page then y.addr else page

-- The outcome of a removal: the list without `x`, whose node and strings are free, every other
-- string as it was, and `*pagehead` moved off the node.
pub record Removal (m : Memory) (xs : List Entry) (x : Entry) (ys : List Entry) (page : Ptr)
    (r : Removed) (m' : Memory) : Type 0 where
  pub found : r.done ≡ true
  pub page_moved : r.page ≡ page_after xs x ys page
  pub list : IsPlaylist m' r.list (xs ++ ys)
  pub no_node : m'.node x.addr ≡ none
  pub no_path : m'.text x.path ≡ none
  pub no_file : m'.text x.file ≡ none
  pub others : (p : Ptr) → p ≢ x.path → p ≢ x.file → m'.text p ≡ m.text p

-- The node of `x` between `xs` and `ys`.
abbrev pub Stands : Store Node → List Entry → Entry → List Entry → Type 0
Stands h xs x ys = h x.addr ≡ some (cell (head_or ys null) x.path x.file (last_or xs null))

next_page_lem :
    (m : Memory) (xs : List Entry) (x : Entry) (ys : List Entry) (page : Ptr)
    → Stands m.node xs x ys
    → NoDup (addrs ys)
    → next_page x.addr page m ≡ done (page_after xs x ys page) m
unfolding next_page load
next_page_lem m xs x [] page e d = ground arith
next_page_lem m xs x (y ∷ ys) page e d = ground arith

module _ {m : Memory} (xs : List Entry) (x : Entry) (ys : List Entry) {head : Ptr}
    (is : IsPlaylist m head (xs ++ (x ∷ ys))) where
  stands : Stands m.node xs x ys
  stands = (Seg-split m.node null xs (x ∷ ys) null is.seg).1.0

  near : Around xs x ys
  near = around xs x ys is.nodes

-- What `unlink` leaves: the list without `x`, once the node of `x` is freed.
record Unlinked (m : Memory) (xs : List Entry) (x : Entry) (ys : List Entry) (list : Ptr)
    (m' : Memory) : Type 0 where
  text : m'.text ≡ m.text
  present : m'.node x.addr ≢ none
  first : list ≡ head_or (xs ++ ys) null
  seg : Seg (upd m'.node x.addr none) null (xs ++ ys) null

unlink_lem :
    {m : Memory} (xs : List Entry) (x : Entry) (ys : List Entry) {head : Ptr}
    → IsPlaylist m head (xs ++ (x ∷ ys))
    → xs ++ ys ≢ []
    → Ensures
        (Unlinked m xs x ys)
        (unlink (cell (head_or ys null) x.path x.file (last_or xs null)) head m)
unfolding unlink
unlink_lem [] x [] is more = absurd (more refl)
unlink_lem {m} [] x (y ∷ ys) is more =
    let a = near [] x (y ∷ ys) is in
    let here : m.node y.addr ≢ none = ground (arith, is.seg) in
    rw (Commands.set_prv-done m y.addr null here) (record {
      text = refl;
      present = put_prv-present m.node y.addr null x.addr (some_ne (stands [] x (y ∷ ys) is));
      first = refl;
      seg = unlink_first m.node x y ys a is.seg;
    })
unlink_lem {m} (w ∷ ws) x [] {head} is more =
    let a = near (w ∷ ws) x [] is in
    let last = last_or ws w.addr in
    let (front, back) = Seg-split m.node null (w ∷ ws) (x ∷ []) null is.seg in
    let ne : last ≢ null = NoDup-ne last (addrs (w ∷ ws)) a.before (has-last w ws) in
    rw
      (
        ==-ne last null ne,
        Commands.set_next-done m last null (Seg-last m.node null w ws x.addr front),
      )
      (record {
        text = refl;
        present = put_next-present m.node last null x.addr (some_ne (stands (w ∷ ws) x [] is));
        first = is.first;
        seg = rw append-nil (unlink_last m.node x w ws a is.seg);
      })
unlink_lem {m} (w ∷ ws) x (y ∷ ys) {head} is more =
    let a = near (w ∷ ws) x (y ∷ ys) is in
    let last = last_or ws w.addr in
    let (front, (e, back)) = Seg-split m.node null (w ∷ ws) (x ∷ y ∷ ys) null is.seg in
    let ne : last ≢ null = NoDup-ne last (addrs (w ∷ ws)) a.before (has-last w ws) in
    rw
      (
        ==-ne last null ne,
        Commands.set_next-done m last y.addr (Seg-last m.node null w ws x.addr front),
        ==-ne y.addr null a.after.0,
        Commands.set_prv-done (record m { node = put_next m.node last y.addr }) y.addr last
            (put_next-present m.node last y.addr y.addr (some_ne back.0)),
      )
      (record {
        text = refl;
        present =
            put_prv-present (put_next m.node last y.addr) y.addr last x.addr
              (put_next-present m.node last y.addr x.addr (some_ne e));
        first = is.first;
        seg = unlink_middle m.node x w ws y ys a is.seg;
      })

-- What `removeplayNode` does behind the unlinking.
finish : Entry → Ptr → Ptr → Cmd Removed
finish x list page = do
  free_text x.file
  free_text x.path
  free_node x.addr
  pure (record { done = true; list = list; page = page })

module _ {m : Memory} (xs : List Entry) (x : Entry) (ys : List Entry) {head : Ptr}
    (is : IsPlaylist m head (xs ++ (x ∷ ys))) where
  finish-Removal :
      (h : Store Node) (list page : Ptr)
      → h x.addr ≢ none
      → list ≡ head_or (xs ++ ys) null
      → Seg (upd h x.addr none) null (xs ++ ys) null
      → Ensures
          (Removal m xs x ys page)
          (finish x list (page_after xs x ys page) (record m { node = h }))
  unfolding finish
  finish-Removal h list page here first s =
      let f = freed xs x ys m.text is.texts is.owned in
      let t = upd m.text x.file none in
      rw
        (
          Commands.free_text-done (record m { node = h }) x.file f.file,
          Commands.free_text-done (record { node = h; text = t }) x.path f.path,
          Commands.free_node-done (record { node = h; text = upd t x.path none }) x.addr here,
        )
        (record {
          found = refl;
          page_moved = refl;
          list = record {
            first = first;
            seg = s;
            nodes =
                rw addrs-append
                  (NoDup-cut (addrs xs) (x.addr ∷ []) (addrs ys) (rw addrs-append at is.nodes));
            texts = f.texts;
            owned = f.owned;
          };
          no_node = upd_self h x.addr none;
          no_path = upd_self t x.path none;
          no_file = upd-none t x.path x.file (upd_self m.text x.file none);
          others = λ p a b. upd_other t x.path p none a ∙ upd_other m.text x.file p none b;
        })

  -- On a play list with other entries `removeplayNode` of a node unlinks and frees that node and
  -- its strings alone, leaves a well-formed list of the others, moves `*pagehead` off the node,
  -- and reports success.
  pub remove_node-Removal :
      (page : Ptr)
      → xs ++ ys ≢ []
      → Ensures (Removal m xs x ys page) (remove_node head x.addr page m)
  unfolding remove_node finish
  remove_node-Removal page more =
      let a = near xs x ys is in
      let e = stands xs x ys is in
      rw
        (
          ==-ne x.addr null a.ne_null,
          next_page_lem m xs x ys page e a.after,
          Commands.load-some m x.addr e,
        )
        (Commands.bind (Unlinked m xs x ys) (Removal m xs x ys page)
          (unlink (cell (head_or ys null) x.path x.file (last_or xs null)) head m) _
          (unlink_lem xs x ys is more)
          (λ list m' u.
            subst
              (λ t.
                Ensures (Removal m xs x ys page)
                  (finish x list (page_after xs x ys page) (record { node = m'.node; text = t })))
              (sym u.text) (finish-Removal m'.node list page u.present u.first u.seg)))

-- On a play list of one entry, with nothing at `NULL`, `removeplayNode` of that entry follows
-- `NULL`, and the run is undefined.
pub remove_node-sole :
    {m : Memory} (x : Entry) {head : Ptr} (page : Ptr)
    → IsPlaylist m head (x ∷ [])
    → m.node null ≡ none
    → remove_node head x.addr page m ≡ crash
unfolding remove_node unlink
remove_node-sole {m} x page is nothing =
    let a = near [] x [] is in
    let e = stands [] x [] is in
    rw (
      ==-ne x.addr null a.ne_null,
      next_page_lem m [] x [] page e a.after,
      Commands.load-some m x.addr e,
      Commands.set_prv-none m null null nothing,
    )

-- `removeplayNode` of `NULL`.
pub remove_node-null :
    (list page : Ptr) (m : Memory)
    → remove_node list null page m ≡ done (record { done = false; list = list; page = page }) m
unfolding remove_node
remove_node-null list page m = refl
