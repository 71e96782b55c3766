-- ===== src/Playlist/Calls/Sequence.antt =====
-- A sequence of calls on a play list, and on its paths.
use slogger.Base.{
  Bool, ap, ℕ, ◌≤◌, ◌<◌, ◌≡◌, refl, Option, none, some, List, [], ◌∷◌, arith, length,
}
use slogger.Memory.Keeps.{Spot, Later}
use slogger.Playlist.Owned.{Owns}
use slogger.Playlist.Calls.{
  Mark, View, Call, Reply, Handles, perform, performs, on_paths, all_on_paths, with_reply,
}
use slogger.Playlist.Calls.Marks.{Marks, Tracks}
use slogger.Playlist.Calls.Agreement.{FreshCall, Agrees, view}
use slogger.Memory.{chain, pure, ◌>>=◌, Memory, Run, done, crash, out_of_fuel, Ensures}
use mathlib.Core.Path.{subst, ap₂}
use slogger.Memory.Commands
use slogger.Playlist.{max_play_list_len}
use slogger.Playlist.Entries.{Entry, IsPlaylist}
use slogger.Playlist.Display.{paths}
use slogger.Playlist.Content.{length-paths}
use slogger.Playlist.Calls.Named.{Named}
use slogger.Playlist.Calls.Refine.{perform-Agrees}
use slogger.Playlist.Calls.Bounds.{Fits, on_paths-Fits}

-- The blocks of each call are unused when it is made.
unfoldable pub FreshAlong : ℕ → List Call → Handles → Memory → Type 0
FreshAlong k [] h m = Unit {0}
FreshAlong k (c ∷ cs) h m = FreshCall c m × Later (λ r m'. FreshAlong k cs r.1 m') (perform k c h m)

-- The replies to a sequence, and a play list with the paths that it leaves.
abbrev pub AllReply : (Spot → Bool) → List Reply × View → List Reply × Handles → Memory → Type 0
AllReply others x r m' =
    (r.0 ≡ x.0) × Tracks others m' r.1.list r.1.page x.1 × (length x.1.paths ≤ max_play_list_len)

abbrev pub AllAgree :
    (Spot → Bool) → Option (List Reply × View) → Run (List Reply × Handles) → Type 0
AllAgree others none r = Unit {0}
AllAgree others (some x) r = Ensures (AllReply others x) r

module _ (others : Spot → Bool) where
  answered :
      (r : Reply) (o : Option (List Reply × View)) (run : Run (List Reply × Handles))
      → AllAgree others o run
      → AllAgree others (with_reply r o) (chain run (λ x. pure (r ∷ x.0, x.1)))
  answered r none run a = tt
  answered r (some x) run a =
      Commands.bind (AllReply others x) (AllReply others (r ∷ x.0, x.1)) run _ a
        (λ y m b. (ap (λ rs. r ∷ rs) b.0, b.1, b.2))

  -- The first call and the others.
  first_and_others :
      (o : Option (Reply × View)) (run : Run (Reply × Handles)) (k : ℕ) (cs : List Call)
      → Fits o
      → Agrees others o run
      → Later (λ r m. FreshAlong k cs r.1 m) run
      → ((h : Handles) (m : Memory) (xs : List Entry) (mark : Mark)
          → IsPlaylist m h.list xs
          → Named m.text xs
          → Marks mark xs h.page
          → Owns others m xs
          → length xs ≤ max_play_list_len
          → FreshAlong k cs h m
          → AllAgree others (all_on_paths cs (view m.text xs mark)) (performs k cs h m))
      → AllAgree others
          (elim o [ none ↦ none | some x ↦ with_reply x.0 (all_on_paths cs x.1) ])
          (chain run (λ x. performs k cs x.1 >>= λ y. pure (x.0 ∷ y.0, y.1)))
  first_and_others none run k cs fits a f go = tt
  first_and_others (some x) crash k cs fits a f go = absurd a
  first_and_others (some x) out_of_fuel k cs fits a f go = absurd a
  first_and_others (some (r', v)) (done (r, h) m) k cs fits (e, (xs, is, same, nm, at, owns)) f go =
      let short : length xs ≤ max_play_list_len =
        omega (arith, fits, ap length same, length-paths m.text xs) in
      let rest =
        answered r (all_on_paths cs (view m.text xs v.mark)) (performs k cs h m)
          (go h m xs v.mark is nm at owns short f) in
      subst
        (λ (x : Reply × View).
          AllAgree others (with_reply x.0 (all_on_paths cs x.1))
            (chain (performs k cs h m) (λ y. pure (r ∷ y.0, y.1))))
        (ap₂ (λ a ts. (a, record v { paths = ts })) e same) rest

pub performs-AllAgree :
    (k : ℕ) (cs : List Call) (h : Handles) (m : Memory) (xs : List Entry) (mark : Mark)
    (others : Spot → Bool)
    → max_play_list_len < k
    → IsPlaylist m h.list xs
    → Named m.text xs
    → Marks mark xs h.page
    → Owns others m xs
    → length xs ≤ max_play_list_len
    → FreshAlong k cs h m
    → AllAgree others (all_on_paths cs (view m.text xs mark)) (performs k cs h m)
unfolding all_on_paths performs FreshAlong
performs-AllAgree k [] h m xs mark others lt is nm at owns le f =
    (refl, (xs, is, refl, nm, at, owns), omega (arith, length-paths m.text xs))
performs-AllAgree k (c ∷ cs) h m xs mark others lt is nm at owns le (f, fs) =
    first_and_others others (on_paths c (view m.text xs mark)) (perform k c h m) k cs
      (on_paths-Fits c (paths m.text xs) mark (omega (arith, length-paths m.text xs)))
      (perform-Agrees k h mark others c xs is nm at owns (omega arith) f) fs
      (λ h' m' xs' mark' is' nm' at' owns' le' f'.
        performs-AllAgree k cs h' m' xs' mark' others lt is' nm' at' owns' le' f')

-- On a play list of at most `MaxPlayListLen` tracks, each with the file name that
-- `extract_file_name` makes of its path, whose page is nowhere, at an index of the list or at a
-- node that has been freed, as the mark says, and with fuel above that number, every sequence of
-- calls of `addplaylist_last`, `addplaylist_front`, `removeplaylist`, `swapplaylist`,
-- `displaylist`, `getPage` and `displayPage`, each of which is given unused blocks by `malloc`,
-- and which is defined on the list of the paths and the mark, comes to its end with exactly the
-- results and the lines that the same sequence has there, and leaves a well-formed play list of
-- the paths that it leaves there, at most `MaxPlayListLen`, each again with its file name, and the
-- page where the mark then says. No block is leaked: if every allocated block belonged to the list
-- or to others before, it does so afterwards.
pub performs_refines :
    {m : Memory} (k : ℕ) (cs : List Call) (h : Handles) (xs : List Entry) (mark : Mark)
    (others : Spot → Bool) {rs : List Reply} {v : View}
    → max_play_list_len < k
    → IsPlaylist m h.list xs
    → Named m.text xs
    → Marks mark xs h.page
    → Owns others m xs
    → length xs ≤ max_play_list_len
    → FreshAlong k cs h m
    → all_on_paths cs (record { paths = paths m.text xs; mark = mark }) ≡ some (rs, v)
    → Ensures (AllReply others (rs, v)) (performs k cs h m)
performs_refines {m} k cs h xs mark others lt is nm at owns le f e =
    subst (λ o. AllAgree others o (performs k cs h m)) e
      (performs-AllAgree k cs h m xs mark others lt is nm at owns le f)
