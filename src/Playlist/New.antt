-- ===== src/Playlist/New.antt =====
-- A new node and its strings, which both additions make.
use slogger.Memory.{Ptr, null, Text, cell, Store, Memory, done, upd}
use slogger.Base.{◌≡◌, refl, ◌≢◌, true, false, some, List, [], ◌∷◌, arith, ◌∙◌}
use slogger.Memory.Update.{mem-ne, has, NoDup, upd_self, upd_other}
use slogger.Memory.Commands
use slogger.Playlist.{Blocks, make_node}
use slogger.Playlist.FileName.{extract_file_name}
use slogger.Playlist.Entries.{Entry, IsPlaylist, addrs, strings, Allocated}
use slogger.Playlist.Strings.{Allocated-upd}

-- What the program relies on of `malloc`: three blocks, none of them `NULL`, apart from one another
-- and from those that the list uses.
pub record IsFresh (b : Blocks) (kept : List Entry) : Type 0 where
  pub node_ne : b.node ≢ null
  pub path_ne : b.path ≢ null
  pub file_ne : b.file ≢ null
  pub two : b.path ≢ b.file
  pub node_new : has b.node (addrs kept) ≡ false
  pub path_new : has b.path (strings kept) ≡ false
  pub file_new : has b.file (strings kept) ≡ false

abbrev pub entry : Blocks → Entry
entry b = record { addr = b.node; path = b.path; file = b.file }

-- The outcome of an addition: the list `new`, which holds `kept` and the entry of `b`, with the
-- path and its file name in the new strings and the kept strings as they were.
pub record Added (m : Memory) (b : Blocks) (path : Text) (kept new : List Entry) (head : Ptr)
    (m' : Memory) : Type 0 where
  pub list : IsPlaylist m' head new
  pub new_path : m'.text b.path ≡ some path
  pub new_file : m'.text b.file ≡ some (extract_file_name path).0
  pub same : (p : Ptr) → has p (strings kept) ≡ true → m'.text p ≡ m.text p

module _ (m : Memory) (b : Blocks) (path : Text) where
  -- The memory behind `make_node`.
  abbrev pub with_node : Ptr → Ptr → Memory
  with_node next prv = record {
    node = upd m.node b.node (some (cell next b.path b.file prv));
    text = upd (upd m.text b.path (some path)) b.file (some (extract_file_name path).0);
  }

  pub make_node-done :
      {kept : List Entry} (next prv : Ptr)
      → IsFresh b kept
      → make_node b path next prv m ≡ done tt (with_node next prv)
  unfolding make_node
  make_node-done next prv f = rw (
    Commands.new_text-done m b.path path f.path_ne,
    Commands.new_text-done (record m { text = upd m.text b.path (some path) }) b.file
        (extract_file_name path).0 f.file_ne,
    Commands.new_node-done
        (record m {
          text = upd (upd m.text b.path (some path)) b.file (some (extract_file_name path).0);
        })
        b.node (cell next b.path b.file prv) f.node_ne,
  )

-- The strings that `make_node` writes, beside those of the list.
pub record NewTexts (m : Memory) (b : Blocks) (path : Text) (kept : List Entry) (t : Store Text)
    : Type 0 where
  pub kept_owned : Allocated t (strings kept)
  pub new_path : t b.path ≡ some path
  pub new_file : t b.file ≡ some (extract_file_name path).0
  pub same : (p : Ptr) → has p (strings kept) ≡ true → t p ≡ m.text p

pub new_texts :
    (m : Memory) (b : Blocks) (path : Text) (kept : List Entry)
    → IsFresh b kept
    → Allocated m.text (strings kept)
    → NewTexts m b path kept (with_node m b path null null).text
new_texts m b path kept f o =
    let t = upd m.text b.path (some path) in
    let name = (extract_file_name path).0 in
    record {
      kept_owned =
          Allocated-upd t b.file (some name) _ f.file_new
            (Allocated-upd m.text b.path (some path) _ f.path_new o);
      new_path = upd_other t b.file b.path (some name) f.two ∙ upd_self m.text b.path (some path);
      new_file = upd_self t b.file (some name);
      same = λ p i.
          upd_other t b.file p (some name) (mem-ne p b.file (strings kept) i f.file_new)
          ∙ upd_other m.text b.path p (some path) (mem-ne p b.path (strings kept) i f.path_new);
    }

pub new_pair : {b : Blocks} {kept : List Entry} → IsFresh b kept → NoDup (b.path ∷ b.file ∷ [])
new_pair f = (f.path_ne, ground arith, (f.file_ne, refl, tt))

-- An addition to a list whose strings are as they were in `m`.
pub Added-from :
    {m m' : Memory} {b : Blocks} {path : Text} {kept new : List Entry} {head : Ptr} {m'' : Memory}
    → ((p : Ptr) → has p (strings kept) ≡ true → m'.text p ≡ m.text p)
    → Added m' b path kept new head m''
    → Added m b path kept new head m''
Added-from same a = record {
  list = a.list;
  new_path = a.new_path;
  new_file = a.new_file;
  same = λ p i. a.same p i ∙ same p i;
}
