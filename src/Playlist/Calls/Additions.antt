-- ===== src/Playlist/Calls/Additions.antt =====
-- `addplaylist_last` and `addplaylist_front` on a play list, and on its paths.
use slogger.Playlist.Owned.{add_last-Owns, add_front-Owns, Owns}
use slogger.Base.{
  Bool, ℕ, ◌<◌, ◌≡◌, refl, List, [], ◌∷◌, ◌++◌, ◌∙◌, ap, arith, ◌==◌, length, inl, inr, Bool-cases,
}
use slogger.Memory.Keeps.{Spot, Later-both}
use slogger.Playlist.Calls.Agreement.{Replies, Agrees, view}
use slogger.Playlist.Calls.{
  Mark, mark_append, mark_prepend, append, prepend, added, Handles, perform, all_but_last,
  front_room, on_paths,
}
use slogger.Playlist.Calls.Marks.{Marks, append-Marks, prepend-Marks}
use mathlib.Core.Path.{ap₂}
use slogger.Memory.{Ptr, Text, Store, Memory}
use slogger.Memory.Commands
use slogger.Playlist.{Blocks, max_play_list_len, add_last, add_front}
use slogger.Playlist.Entries.{Entry, IsPlaylist}
use slogger.Playlist.New.{Added, entry}
use slogger.Playlist.Append.{kept_last, add_last-Added}
use slogger.Playlist.DropLast
use slogger.Playlist.Prepend.{kept_front, add_front-Added}
use slogger.Playlist.Display.{text_at, paths}
use slogger.Playlist.Content.{length-paths, paths-same, Added-paths}
use slogger.Playlist.File.Reading.{room, paths-kept_last}
use slogger.Playlist.Calls.Named.{Named, Named-kept_last, Named-kept_front, Added-last, Added-front}
use slogger.Playlist.Calls.Fresh.{Unused, kept_last-IsFresh, kept_front-IsFresh}

paths-all_but_last :
    (t : Store Text) (xs : List Entry)
    → paths t (DropLast.all_but_last xs) ≡ all_but_last (paths t xs)
paths-all_but_last t [] = refl
paths-all_but_last t (x ∷ []) = refl
paths-all_but_last t (x ∷ y ∷ zs) = ap (λ l. text_at t x.path ∷ l) (paths-all_but_last t (y ∷ zs))

paths-kept_front :
    (t : Store Text) (xs : List Entry) → paths t (kept_front xs) ≡ front_room (paths t xs)
paths-kept_front t xs = rw (length-paths t xs) (elim (Bool-cases (length xs == max_play_list_len)) [
  | inl full ↦ rw full (paths-all_but_last t xs)
  | inr open_ ↦ rw open_ refl
])

front-paths :
    {m m' : Memory} {b : Blocks} {path : Text} {kept : List Entry} {head : Ptr}
    → Added m b path kept (entry b ∷ kept) head m'
    → paths m'.text (entry b ∷ kept) ≡ path ∷ paths m.text kept
front-paths {m} {m'} {b} {path} {kept} a =
    let first : text_at m'.text b.path ≡ path = ground (arith, a.new_path) in
    ap₂ (λ l ls. l ∷ ls) first (paths-same m.text m'.text kept a.same)

module _ (k : ℕ) (h : Handles) (mark : Mark) (o : Spot → Bool) {m : Memory} where
  pub append-Agrees :
      (b : Blocks) (path : Text) (xs : List Entry)
      → IsPlaylist m h.list xs
      → Named m.text xs
      → Marks mark xs h.page
      → Owns o m xs
      → length xs < k
      → Unused b m
      → Agrees o (on_paths (append b path) (view m.text xs mark)) (perform k (append b path) h m)
  unfolding on_paths perform
  append-Agrees b path xs is nm at owns lt u =
      let new = kept_last xs ++ (entry b ∷ []) in
      let grown = Added m b path (kept_last xs) new in
      Commands.bind (λ list m'. grown list m' × Owns o m' new)
        (Replies o (
          added,
          record {
            paths = room (paths m.text xs) ++ (path ∷ []);
            mark = mark_append (length (paths m.text xs)) mark;
          },
        ))
        (add_last k b h.list path m) _
        (Later-both grown (λ _ m'. Owns o m' new) (add_last k b h.list path m)
          (add_last-Added k b path xs is lt (kept_last-IsFresh xs is u))
          (add_last-Owns k b path xs is lt owns))
        (λ list m' (a, only). (
          refl,
          (
            kept_last xs ++ (entry b ∷ []),
            a.list,
            Added-paths a ∙ ap (λ ts. ts ++ (path ∷ [])) (paths-kept_last m.text xs),
            Added-last a (Named-kept_last m.text xs nm),
            rw (length-paths m.text xs) (append-Marks mark xs (entry b) h.page at),
            only,
          ),
        ))

  pub prepend-Agrees :
      (b : Blocks) (path : Text) (xs : List Entry)
      → IsPlaylist m h.list xs
      → Named m.text xs
      → Marks mark xs h.page
      → Owns o m xs
      → length xs < k
      → Unused b m
      → Agrees o (on_paths (prepend b path) (view m.text xs mark)) (perform k (prepend b path) h m)
  unfolding on_paths perform
  prepend-Agrees b path [] is nm at owns lt u = tt
  prepend-Agrees b path (x ∷ xs) is nm at owns lt u =
      let new = entry b ∷ kept_front (x ∷ xs) in
      let grown = Added m b path (kept_front (x ∷ xs)) new in
      Commands.bind (λ list m'. grown list m' × Owns o m' new)
        (Replies o (
          added,
          record {
            paths = path ∷ front_room (paths m.text (x ∷ xs));
            mark = mark_prepend (length (paths m.text (x ∷ xs))) mark;
          },
        ))
        (add_front k b h.list path m) _
        (Later-both grown (λ _ m'. Owns o m' new) (add_front k b h.list path m)
          (add_front-Added k b path x xs is lt (kept_front-IsFresh (x ∷ xs) is u))
          (add_front-Owns k b path (x ∷ xs) is lt owns))
        (λ list m' (a, only). (
          refl,
          (
            entry b ∷ kept_front (x ∷ xs),
            a.list,
            front-paths a ∙ ap (λ ts. path ∷ ts) (paths-kept_front m.text (x ∷ xs)),
            Added-front a (Named-kept_front m.text (x ∷ xs) nm),
            rw (length-paths m.text (x ∷ xs)) (prepend-Marks mark (x ∷ xs) (entry b) h.page at),
            only,
          ),
        ))
