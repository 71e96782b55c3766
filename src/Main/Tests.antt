-- ===== src/Main/Tests.antt =====
-- `main` on a file of three lines.
use slogger.Memory.{cell, null, Text, Memory, Ensures, done}
use slogger.Base.{
  ◌==◌, if◌then◌else◌, suc, ◌≡◌, refl, true, some, none, List, [], ◌∷◌, arith, length,
}
use slogger.Playlist.{Blocks}
use slogger.Playlist.Entries.{Entry, IsPlaylist}
use slogger.Playlist.File.{read_playlist, save_playlist}
use slogger.Playlist.File.RoundTrip.{AllShort, unlines}
use slogger.Playlist.File.Reading.{
  FreshRun, HasRead, read_playlist-Shows, save_playlist-read_playlist,
}
use slogger.Main.{run}
use slogger.Main.Run.{Ran, run-Ran}

abbrev nothing : Memory
nothing = record { node = λ p. none; text = λ p. none }

abbrev blocks : List Blocks
blocks =
    record { node = 1; path = 11; file = 21 }
    ∷ record { node = 2; path = 12; file = 22 }
    ∷ record { node = 3; path = 13; file = 23 }
    ∷ []

abbrev lines : List Text
lines = (b'a' ∷ []) ∷ (b'b' ∷ []) ∷ (b'c' ∷ []) ∷ []

blocks-FreshRun : FreshRun [] blocks
blocks-FreshRun = ground arith

lines-AllShort : AllShort lines
lines-AllShort = ground arith

read_playlist-Shows_example :
    Ensures (HasRead lines) (read_playlist 7 17 blocks (some (unlines lines)) null nothing)
read_playlist-Shows_example =
    read_playlist-Shows 17 blocks lines nothing (omega arith) lines-AllShort blocks-FreshRun refl

run-Ran_example :
    Ensures
      (Ran (b'a' ∷ []) (b'b' ∷ []) ((b'c' ∷ []) ∷ []))
      (run true 7 17 blocks (some (unlines lines)) nothing)
run-Ran_example =
    run-Ran 17 blocks lines nothing (omega arith) lines-AllShort blocks-FreshRun refl refl

nothing-IsPlaylist : IsPlaylist nothing null []
nothing-IsPlaylist = record { first = refl; seg = tt; nodes = tt; texts = tt; owned = tt }

abbrev sole : Entry
sole = record { addr = 1; path = 11; file = 21 }

abbrev one_line : Memory
one_line = record {
  node = λ p. if p == 1 then some (cell 0 11 21 0) else none;
  text = λ p. if p == 11 then some (b'a' ∷ []) else if p == 21 then some [] else none;
}

one_line-IsPlaylist : IsPlaylist one_line 1 (sole ∷ [])
one_line-IsPlaylist = record {
  first = refl;
  seg = (refl, tt);
  nodes = ground arith;
  texts = ground arith;
  owned = ground arith;
}

save_playlist-read_playlist_example :
    (file : Text) × (save_playlist true 17 1 one_line ≡ done (true, some file) one_line)
    × Ensures (HasRead ((b'a' ∷ []) ∷ [])) (
        read_playlist
          (suc (length file))
          17
          (record { node = 1; path = 11; file = 21 } ∷ [])
          (some file)
          null
          nothing)
save_playlist-read_playlist_example =
    save_playlist-read_playlist 17 (sole ∷ []) (record { node = 1; path = 11; file = 21 } ∷ [])
      nothing one_line-IsPlaylist (omega arith) (omega arith) (ground arith) (ground arith) refl
