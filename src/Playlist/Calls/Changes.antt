-- ===== src/Playlist/Calls/Changes.antt =====
-- `removeplaylist` and `swapplaylist` on a play list, and on its paths.
use slogger.Base.{
  ◌∷◌, Bool, ℕ, ◌<◌, ◌≡◌, refl, ◌≢◌, true, false, some, List, [], ◌++◌, ◌∙◌, ap, ◌==◌, length, inl,
  inr, Bool-cases,
}
use slogger.Playlist.Owned.{Removal-Owns, remove_node-Owns, Owns}
use slogger.Memory.Keeps.{Spot, Later-both}
use slogger.Playlist.Calls.MarkRemoval.{remove-Marks}
use slogger.Playlist.Calls.Agreement.{Replies, Agrees, view}
use slogger.Playlist.Calls.{
  Mark, mark_remove, remove, swap, success, Handles, perform, first_at, moved_back, moved_up,
  removed, swapped, on_paths,
}
use slogger.Playlist.Calls.Marks.{Marks}
use slogger.Playlist.Unlink.{around}
use mathlib.Core.Path.{subst}
use slogger.Memory.{Text, Memory}
use slogger.Memory.Commands
use slogger.Playlist.{remove_node, swap_node}
use slogger.Playlist.Entries.{Entry, IsPlaylist}
use slogger.Playlist.Remove.{Removal, remove_node-Removal}
use slogger.Playlist.Display.{text_at, paths}
use slogger.Playlist.Find.{remove_path_lem, swap_path_lem}
use slogger.Playlist.Content.{paths-append, length-paths, Removal-paths}
use slogger.Playlist.Calls.Named.{Named, Removal-Named}
use slogger.Playlist.Calls.First.{Found, first-cases}
use slogger.Playlist.Calls.Swaps.{Moves, swap_next-Moves, swap_prv-Moves}

module _ (k : ℕ) (h : Handles) (mark : Mark) (o : Spot → Bool) {m : Memory} where
  removed-Agrees :
      (path : Text) (xs : List Entry)
      → IsPlaylist m h.list xs
      → Named m.text xs
      → Marks mark xs h.page
      → Owns o m xs
      → length xs < k
      → Found m.text path xs
      → Agrees o
          (removed (view m.text xs mark) (first_at path (paths m.text xs)))
          (perform k (remove path) h m)
  unfolding perform
  removed-Agrees path xs is nm at owns lt f =
      let is' = subst (IsPlaylist m h.list) f.whole is in
      let left = paths m.text f.before ++ paths m.text f.behind in
      elim (Bool-cases (length left == 0)) [
        | inl z ↦ rw (f.split, z) tt
        | inr n ↦
            let ne : f.before ++ f.behind ≢ [] = (λ e.
              let z : (length left == 0) ≡ true =
                rw (← paths-append m.text f.before f.behind, e) refl in
              cc) in
            let leaves = Removal m f.before f.node f.behind h.page in
            rw (f.split, n, remove_path_lem k xs path is lt h.list h.page, f.found)
              (Commands.bind (λ r m'. leaves r m' × Owns o m' (f.before ++ (f.node ∷ f.behind)))
                (Replies o (
                  success true,
                  record {
                    paths = left;
                    mark =
                        mark_remove (length (paths m.text f.before))
                          (length (paths m.text f.behind)) mark;
                  },
                ))
                (remove_node h.list f.node.addr h.page m) _
                (Later-both leaves (λ _ m'. Owns o m' (f.before ++ (f.node ∷ f.behind)))
                  (remove_node h.list f.node.addr h.page m)
                  (remove_node-Removal f.before f.node f.behind is' h.page ne)
                  (remove_node-Owns h.list f.node.addr h.page (f.before ++ (f.node ∷ f.behind))
                    (subst (Owns o m) f.whole owns)))
                (λ r m' (gone, only). (
                  ap success gone.found,
                  (
                    f.before ++ f.behind,
                    gone.list,
                    Removal-paths is' gone ∙ paths-append m.text f.before f.behind,
                    Removal-Named is' gone (subst (Named m.text) f.whole nm),
                    rw (length-paths m.text f.before, length-paths m.text f.behind, gone.page_moved)
                        (remove-Marks mark f.before f.node f.behind h.page
                          (around f.before f.node f.behind is'.nodes) ne
                          (subst (λ l. Marks mark l h.page) f.whole at)),
                    Removal-Owns gone only,
                  ),
                )))
      ]

  pub remove-Agrees :
      (path : Text) (xs : List Entry)
      → IsPlaylist m h.list xs
      → Named m.text xs
      → Marks mark xs h.page
      → Owns o m xs
      → length xs < k
      → Agrees o (on_paths (remove path) (view m.text xs mark)) (perform k (remove path) h m)
  unfolding on_paths perform
  remove-Agrees path xs is nm at owns lt = elim (first-cases m.text path xs) [
    | inl (a, b) ↦
        rw (remove_path_lem k xs path is lt h.list h.page, a, b)
          (refl, (xs, is, refl, nm, at, owns))
    | inr f ↦ removed-Agrees path xs is nm at owns lt f
  ]

  swapped-Agrees :
      (next : Bool) (path : Text) (xs : List Entry)
      → IsPlaylist m h.list xs
      → Named m.text xs
      → Marks mark xs h.page
      → Owns o m xs
      → length xs < k
      → Found m.text path xs
      → Agrees o
          (let x = swapped next (paths m.text xs) (first_at path (paths m.text xs)) in
            some (success x.0, record { paths = x.1; mark = mark }))
          (perform k (swap next path) h m)
  unfolding perform
  swapped-Agrees true path xs is nm at owns lt f =
      let us =
        moved_back (paths m.text f.before) (text_at m.text f.node.path) (paths m.text f.behind) in
      rw (f.split, swap_path_lem k xs path is lt true h.sel, f.found)
        (Commands.bind (Moves o h.list h.page mark us)
          (Replies o (success us.0, record { paths = us.1; mark = mark }))
          (swap_node f.node.addr true h.sel m) _
          (swap_next-Moves o h.page mark h.sel f.before f.node f.behind
            (subst (IsPlaylist m h.list) f.whole is) (subst (Named m.text) f.whole nm)
            (subst (λ l. Marks mark l h.page) f.whole at) (subst (Owns o m) f.whole owns))
          (λ r m' mv. (ap success mv.0, mv.1)))
  swapped-Agrees false path xs is nm at owns lt f =
      let us =
        moved_up (paths m.text f.before) (text_at m.text f.node.path) (paths m.text f.behind) in
      rw (f.split, swap_path_lem k xs path is lt false h.sel, f.found)
        (Commands.bind (Moves o h.list h.page mark us)
          (Replies o (success us.0, record { paths = us.1; mark = mark }))
          (swap_node f.node.addr false h.sel m) _
          (swap_prv-Moves o h.page mark h.sel f.before f.node f.behind
            (subst (IsPlaylist m h.list) f.whole is) (subst (Named m.text) f.whole nm)
            (subst (λ l. Marks mark l h.page) f.whole at) (subst (Owns o m) f.whole owns))
          (λ r m' mv. (ap success mv.0, mv.1)))

  pub swap-Agrees :
      (next : Bool) (path : Text) (xs : List Entry)
      → IsPlaylist m h.list xs
      → Named m.text xs
      → Marks mark xs h.page
      → Owns o m xs
      → length xs < k
      → Agrees o (on_paths (swap next path) (view m.text xs mark)) (perform k (swap next path) h m)
  unfolding on_paths perform
  swap-Agrees next path xs is nm at owns lt = elim (first-cases m.text path xs) [
    | inl (a, b) ↦
        rw (swap_path_lem k xs path is lt next h.sel, a, b) (refl, (xs, is, refl, nm, at, owns))
    | inr f ↦ swapped-Agrees next path xs is nm at owns lt f
  ]
