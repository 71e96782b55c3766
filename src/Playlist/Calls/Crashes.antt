-- ===== src/Playlist/Calls/Crashes.antt =====
-- A sequence of calls that is undefined on the paths is undefined on the heap.
use slogger.Base.{
  ℕ, ◌≤◌, ◌<◌, ◌≡◌, Bool, false, Option, none, some, List, [], ◌∷◌, arith, ap, ◌∙◌, refl, length,
}
use slogger.Memory.{Memory, Run, done, crash, out_of_fuel, chain, pure, ◌>>=◌, null}
use slogger.Memory.Keeps.{Spot, node_at, Later}
use slogger.Playlist.{max_play_list_len}
use slogger.Playlist.Entries.{Entry, IsPlaylist}
use slogger.Playlist.Display.{paths}
use slogger.Playlist.Content.{length-paths}
use slogger.Playlist.Owned.{Owns}
use slogger.Playlist.Calls.{
  Call, Reply, Handles, Mark, View, perform, performs, on_paths, all_on_paths, with_reply,
}
use slogger.Playlist.Calls.Named.{Named}
use slogger.Playlist.Calls.Marks.{Marks}
use slogger.Playlist.Calls.Agreement.{Agrees, view}
use slogger.Playlist.Calls.Bounds.{Fits, on_paths-Fits}
use slogger.Playlist.Calls.Refine.{perform-Agrees}
use slogger.Playlist.Calls.Sequence.{FreshAlong}
use slogger.Playlist.Calls.Undefined.{Plain, some-none, nothing, perform-undefined}

abbrev pub AllPlain : List Call → Type 0
AllPlain [] = Unit {0}
AllPlain (c ∷ cs) = Plain c × AllPlain cs

with_reply-none : (r : Reply) (o : Option (List Reply × View)) → with_reply r o ≡ none → o ≡ none
with_reply-none r none e = refl
with_reply-none r (some x) e = absurd (some-none e)

module _ (others : Spot → Bool) where
  first_or_others :
      (o : Option (Reply × View)) (run : Run (Reply × Handles)) (k : ℕ) (cs : List Call)
      → Fits o
      → Agrees others o run
      → (o ≡ none → run ≡ crash)
      → Later (λ r m. FreshAlong k cs r.1 m) run
      → ((h : Handles) (m : Memory) (xs : List Entry) (mark : Mark)
          → IsPlaylist m h.list xs
          → Named m.text xs
          → Marks mark xs h.page
          → Owns others m xs
          → length xs ≤ max_play_list_len
          → FreshAlong k cs h m
          → all_on_paths cs (view m.text xs mark) ≡ none
          → performs k cs h m ≡ crash)
      → (elim o [ none ↦ none | some x ↦ with_reply x.0 (all_on_paths cs x.1) ]) ≡ none
      → chain {B = List Reply × Handles} run (λ x. performs k cs x.1 >>= λ y. pure (x.0 ∷ y.0, y.1))
        ≡ crash
  first_or_others none run k cs fits a bad f go e =
      ap
        (λ r.
          chain {B = List Reply × Handles} r
            (λ x. performs k cs x.1 >>= λ y. pure (x.0 ∷ y.0, y.1)))
        (bad refl)
  first_or_others (some x) crash k cs fits a bad f go e = refl
  first_or_others (some x) out_of_fuel k cs fits a bad f go e = absurd a
  first_or_others (some (r', v)) (done (r, h) m) k cs fits (e', (xs, is, same, nm, at, owns)) bad f
        go e =
      let short : length xs ≤ max_play_list_len =
        omega (arith, fits, ap length same, length-paths m.text xs) in
      let none_here : all_on_paths cs (view m.text xs v.mark) ≡ none =
        ap (λ ts. all_on_paths cs (record v { paths = ts })) same
        ∙ with_reply-none r' (all_on_paths cs v) e in
      ap (λ run. chain {B = List Reply × Handles} run (λ y. pure (r ∷ y.0, y.1)))
        (go h m xs v.mark is nm at owns short f none_here)

-- A sequence of calls of `addplaylist_last`, `addplaylist_front`, `removeplaylist`, `swapplaylist`
-- and `displaylist` that is undefined on the list of the paths, because one adds to the front of
-- the empty list or removes the only track, is undefined on the play list, if that has at most
-- `MaxPlayListLen` tracks with the file names of their paths, its page is where the mark says,
-- every allocated block belongs to it or to others, none of these at `NULL`, the fuel is above
-- that number, and each call is given unused blocks.
pub performs-crashes :
    {m : Memory} (k : ℕ) (cs : List Call) (h : Handles) (xs : List Entry) (mark : Mark)
    (others : Spot → Bool)
    → max_play_list_len < k
    → IsPlaylist m h.list xs
    → Named m.text xs
    → Marks mark xs h.page
    → Owns others m xs
    → others (node_at null) ≡ false
    → length xs ≤ max_play_list_len
    → FreshAlong k cs h m
    → AllPlain cs
    → all_on_paths cs (record { paths = paths m.text xs; mark = mark }) ≡ none
    → performs k cs h m ≡ crash
unfolding all_on_paths performs FreshAlong
performs-crashes k [] h xs mark others lt is nm at owns low le f plain e = absurd (some-none e)
performs-crashes {m} k (c ∷ cs) h xs mark others lt is nm at owns low le (f, fs) (p, ps) e =
    first_or_others others (on_paths c (view m.text xs mark)) (perform k c h m) k cs
      (on_paths-Fits c (paths m.text xs) mark (omega (arith, length-paths m.text xs)))
      (perform-Agrees k h mark others c xs is nm at owns (omega arith) f)
      (perform-undefined k h mark c xs is (nothing others m xs is owns low) (omega arith) f p) fs
      (λ h' m' xs' mark' is' nm' at' owns' le' f' e'.
        performs-crashes k cs h' xs' mark' others lt is' nm' at' owns' low le' f' ps e')
      e
