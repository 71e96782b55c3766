-- ===== src/Playlist/Calls/Agreement.antt =====
-- What a call on a play list has in common with the call on its paths.
use slogger.Base.{Bool, ◌≡◌, Option, none, some, List}
use slogger.Memory.Keeps.{Spot}
use slogger.Memory.{Text, Store, Memory, Run, Ensures}
use slogger.Playlist.Entries.{Entry}
use slogger.Playlist.Display.{paths}
use slogger.Playlist.Calls.{Call, append, prepend, Reply, Handles, Mark, View}
use slogger.Playlist.Calls.Fresh.{Unused}
use slogger.Playlist.Calls.Marks.{Tracks}

-- The blocks of a call are unused when it is made.
abbrev pub FreshCall : Call → Memory → Type 0
FreshCall (append b path) m = Unused b m
FreshCall (prepend b path) m = Unused b m
FreshCall _ m = Unit {0}

-- A call that is defined on the paths gives that reply, and leaves a play list with those paths.
abbrev pub Replies : (Spot → Bool) → Reply × View → Reply × Handles → Memory → Type 0
Replies o x r m' = (r.0 ≡ x.0) × Tracks o m' r.1.list r.1.page x.1

abbrev pub Agrees : (Spot → Bool) → Option (Reply × View) → Run (Reply × Handles) → Type 0
Agrees o none r = Unit {0}
Agrees o (some x) r = Ensures (Replies o x) r

-- The paths of the entries, and the mark.
abbrev pub view : Store Text → List Entry → Mark → View
view t xs mark = record { paths = paths t xs; mark = mark }
