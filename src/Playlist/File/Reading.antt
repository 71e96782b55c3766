-- ===== src/Playlist/File/Reading.antt =====
-- The list that `readplaylist` builds.
use mathlib.Core.Path.{subst, sym, ap₂}
use slogger.Base.{
  ℕ, suc, ◌+◌, ◌-◌, ◌≤◌, ◌<◌, ◌≡◌, refl, Bool, true, some, List, [], ◌∷◌, ◌++◌, arith, ◌∙◌, ap,
  ◌==◌, if◌then◌else◌, length, drop, length-append, inl, inr, Bool-cases, append_assoc, append-nil,
}
use slogger.Memory.{◌>>=◌, Ptr, null, Text, Store, Memory, Ensures, done, pure}
use slogger.Memory.Commands
use slogger.Playlist.{Blocks, max_play_list_len, add_last}
use slogger.Playlist.Entries.{Entry, IsPlaylist}
use slogger.Playlist.New.{IsFresh, Added, entry}
use slogger.Playlist.Append.{kept_last, rest, add_last-Added}
use slogger.Playlist.Bounds.{kept_last-short}
use slogger.Playlist.Display.{paths}
use slogger.Playlist.Content.{Shows, length-paths, Added-paths}
use slogger.Playlist.File.{save_playlist, add_all, read_playlist}
use slogger.Playlist.File.RoundTrip.{save_playlist-unlines, AllShort, unlines, read_lines-unlines}

-- The blocks of each new node are fresh for the list that it joins.
abbrev pub FreshRun : List Entry → List Blocks → Type 0
FreshRun cur [] = Unit {0}
FreshRun cur (b ∷ bs) = IsFresh b (kept_last cur) × FreshRun (kept_last cur ++ (entry b ∷ [])) bs

-- The paths after one line more, and after all lines: a full list loses its first path.
abbrev pub without_first : List Text → List Text
without_first [] = []
without_first (_ ∷ ts) = ts

abbrev pub room : List Text → List Text
room ts = if length ts == max_play_list_len then without_first ts else ts

pub received : List Text → List Text → List Text
received ts [] = ts
received ts (u ∷ us) = received (room ts ++ (u ∷ [])) us

pub paths-rest : (t : Store Text) (xs : List Entry) → paths t (rest xs) ≡ without_first (paths t xs)
paths-rest t [] = refl
paths-rest t (x ∷ xs) = refl

pub paths-kept_last :
    (t : Store Text) (xs : List Entry) → paths t (kept_last xs) ≡ room (paths t xs)
paths-kept_last t xs = rw (length-paths t xs) (elim (Bool-cases (length xs == max_play_list_len)) [
  | inl full ↦ rw full (paths-rest t xs)
  | inr open_ ↦ rw open_ refl
])

add_all-Shows :
    (k : ℕ) (bs : List Blocks) (us : List Text) (m : Memory) (head : Ptr) (cur : List Entry)
    → IsPlaylist m head cur
    → length cur ≤ max_play_list_len
    → max_play_list_len < k
    → FreshRun cur bs
    → length us ≡ length bs
    → Ensures (λ h m'. Shows m' h (received (paths m.text cur) us)) (add_all k bs head us m)
unfolding add_all received
add_all-Shows k [] [] m head cur is le lt f e = (cur, is, refl)
add_all-Shows k [] (u ∷ us) m head cur is le lt f e = absurd (omega arith)
add_all-Shows k (b ∷ bs) [] m head cur is le lt f e = absurd (omega arith)
add_all-Shows k (b ∷ bs) (u ∷ us) m head cur is le lt (f, fs) e =
    Commands.bind (Added m b u (kept_last cur) (kept_last cur ++ (entry b ∷ [])))
      (λ h m'. Shows m' h (received (room (paths m.text cur) ++ (u ∷ [])) us))
      (add_last k b head u m) _ (add_last-Added k b u cur is (omega arith) f)
      (λ h m' a.
        subst (λ ts. Ensures (λ h' m''. Shows m'' h' (received ts us)) (add_all k bs h us m'))
          (Added-paths a ∙ ap (λ ts. ts ++ (u ∷ [])) (paths-kept_last m.text cur))
          (add_all-Shows k bs us m' h (kept_last cur ++ (entry b ∷ [])) a.list
            (omega (arith, length-append (kept_last cur) (entry b ∷ []), kept_last-short cur le)) lt
            fs (omega arith)))

received-drop :
    (ts us : List Text)
    → length ts ≤ max_play_list_len
    → received ts us ≡ drop (length ts + length us - max_play_list_len) (ts ++ us)
unfolding received
received-drop ts [] le =
    let none_gone : length ts + 0 - max_play_list_len ≡ 0 = omega arith in
    rw (append-nil ts, none_gone) refl
received-drop [] (u ∷ us) le =
    received-drop (u ∷ []) us (omega arith) ∙ ap (λ n. drop n (u ∷ us)) (omega arith)
received-drop (t ∷ ts) (u ∷ us) le = elim (Bool-cases (length (t ∷ ts) == max_play_list_len)) [
  | inl full ↦
      let gone : length (ts ++ (u ∷ [])) + length us - max_play_list_len ≡ length us =
        ground (arith, length-append ts (u ∷ [])) in
      let goal : length (t ∷ ts) + length (u ∷ us) - max_play_list_len ≡ suc (length us) =
        ground arith in
      rw (full, goal)
        (received-drop (ts ++ (u ∷ [])) us (ground (arith, length-append ts (u ∷ [])))
          ∙ ap₂ drop gone (append_assoc ts (u ∷ []) us))
  | inr open_ ↦ rw open_ (
      received-drop ((t ∷ ts) ++ (u ∷ [])) us (ground (arith, length-append ts (u ∷ [])))
      ∙ ap₂ drop (omega (arith, length-append ts (u ∷ []))) (append_assoc (t ∷ ts) (u ∷ []) us))
]

-- The last lines of a text, as many as a play list holds.
abbrev pub last_lines : List Text → List Text
last_lines us = drop (length us - max_play_list_len) us

received-last : (us : List Text) → received [] us ≡ last_lines us
received-last us = received-drop [] us (omega arith) ∙ ap (λ n. drop n us) (omega arith)

-- A run of `readplaylist` that has succeeded, with a list of these paths.
abbrev pub HasRead : List Text → Bool × Ptr → Memory → Type 0
HasRead ts r m' = (r.0 ≡ true) × Shows m' r.1 ts

empty : (m : Memory) → IsPlaylist m null []
empty m = record { first = refl; seg = tt; nodes = tt; texts = tt; owned = tt }

pub read_playlist-Shows :
    (k : ℕ) (bs : List Blocks) (us : List Text) (m : Memory)
    → max_play_list_len < k
    → AllShort us
    → FreshRun [] bs
    → length us ≡ length bs
    → Ensures
        (HasRead (last_lines us))
        (read_playlist (suc (length (unlines us))) k bs (some (unlines us)) null m)
unfolding read_playlist
read_playlist-Shows k bs us m lt short f e =
    subst
      (λ ts.
        Ensures (HasRead (last_lines us))
          ((add_all k bs null ts >>= λ list'. pure (true, list')) m))
      (sym (read_lines-unlines (suc (length (unlines us))) us short (omega arith)))
      (Commands.bind (λ h m'. Shows m' h (received [] us)) (HasRead (last_lines us))
        (add_all k bs null us m) _ (add_all-Shows k bs us m null [] (empty m) (omega arith) lt f e)
        (λ h m' shown. (refl, subst (Shows m' h) (received-last us) shown)))

-- On a play list of at most `MaxPlayListLen` paths, each a line of at most 254 characters, none of
-- them 0, with fuel above `MaxPlayListLen`, `saveplaylist` succeeds and changes nothing, and
-- `readplaylist` of the file that it writes, into the empty list of any memory and with fresh
-- blocks, one for each line, succeeds with a well-formed play list of the same paths in the same
-- order.
pub save_playlist-read_playlist :
    {m : Memory} {head : Ptr} (k : ℕ) (xs : List Entry) (bs : List Blocks) (m' : Memory)
    → IsPlaylist m head xs
    → length xs ≤ max_play_list_len
    → max_play_list_len < k
    → AllShort (paths m.text xs)
    → FreshRun [] bs
    → length xs ≡ length bs
    → (file : Text) × (save_playlist true k head m ≡ done (true, some file) m)
      × Ensures
          (λ r m''. (r.0 ≡ true) × Shows m'' r.1 (paths m.text xs))
          (read_playlist (suc (length file)) k bs (some file) null m')
save_playlist-read_playlist {m} k xs bs m' is le lt short f e =
    let all : length (paths m.text xs) - max_play_list_len ≡ 0 =
      omega (arith, length-paths m.text xs) in
    (
      unlines (paths m.text xs),
      save_playlist-unlines k xs is (omega arith),
      subst
          (λ n. Ensures (HasRead (drop n (paths m.text xs))) (
            read_playlist (suc (length (unlines (paths m.text xs)))) k bs
              (some (unlines (paths m.text xs))) null m'))
          all
          (read_playlist-Shows k bs (paths m.text xs) m' lt short f (length-paths m.text xs ∙ e)),
    )
