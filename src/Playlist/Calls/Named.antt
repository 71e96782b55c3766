-- ===== src/Playlist/Calls/Named.antt =====
-- The file name of every track is the one that `extract_file_name` makes of its path.
use slogger.Base.{
  ◌≡◌, Bool, true, false, List, [], ◌∷◌, ◌++◌, arith, ◌∙◌, sym, ap, length, ◌==◌, if◌then◌else◌,
}
use slogger.Memory.{Ptr, Text, Store, Memory}
use slogger.Memory.Update.{has, mem-ne}
use slogger.Playlist.{Blocks, Removed, max_play_list_len}
use slogger.Playlist.FileName.{extract_file_name}
use slogger.Playlist.Entries.{Entry, IsPlaylist, strings}
use slogger.Playlist.New.{Added, entry}
use slogger.Playlist.Append.{rest, kept_last}
use slogger.Playlist.DropLast.{all_but_last}
use slogger.Playlist.Prepend.{kept_front}
use slogger.Playlist.Remove.{Removal}
use slogger.Playlist.Swap.{exchanged, with_strings}
use slogger.Playlist.Strings.{freed}
use slogger.Playlist.Display.{text_at}

abbrev pub Named : Store Text → List Entry → Type 0
Named t [] = Unit {0}
Named t (x ∷ xs) = (text_at t x.file ≡ (extract_file_name (text_at t x.path)).0) × Named t xs

Named-append : (t : Store Text) (xs ys : List Entry) → Named t xs → Named t ys → Named t (xs ++ ys)
Named-append t [] ys a b = b
Named-append t (x ∷ xs) ys (e, a) b = (e, Named-append t xs ys a b)

Named-split : (t : Store Text) (xs ys : List Entry) → Named t (xs ++ ys) → Named t xs × Named t ys
Named-split t [] ys a = (tt, a)
Named-split t (x ∷ xs) ys (e, a) = let (b, c) = Named-split t xs ys a in ((e, b), c)

-- Strings that stay keep their names.
Named-same :
    (t t' : Store Text) (xs : List Entry)
    → ((p : Ptr) → has p (strings xs) ≡ true → t' p ≡ t p)
    → Named t xs
    → Named t' xs
Named-same t t' [] same n = tt
Named-same t t' (x ∷ xs) same (e, n) =
    let path : t' x.path ≡ t x.path = same x.path (ground arith) in
    let file : t' x.file ≡ t x.file = same x.file (ground arith) in
    let path_text : text_at t' x.path ≡ text_at t x.path = ground arith in
    let file_text : text_at t' x.file ≡ text_at t x.file = ground arith in
    (
      file_text ∙ (e ∙ sym (ap (λ s. (extract_file_name s).0) path_text)),
      Named-same t t' xs (λ p i. same p (ground arith)) n,
    )

Named-rest : (t : Store Text) (xs : List Entry) → Named t xs → Named t (rest xs)
Named-rest t [] n = n
Named-rest t (x ∷ xs) n = n.1

Named-all_but_last : (t : Store Text) (xs : List Entry) → Named t xs → Named t (all_but_last xs)
Named-all_but_last t [] n = n
Named-all_but_last t (x ∷ []) n = tt
Named-all_but_last t (x ∷ y ∷ zs) (e, n) = (e, Named-all_but_last t (y ∷ zs) n)

either :
    (t : Store Text) (b : Bool) (xs ys : List Entry)
    → Named t xs
    → Named t ys
    → Named t (if b then xs else ys)
either t true xs ys a b = a
either t false xs ys a b = b

pub Named-kept_last : (t : Store Text) (xs : List Entry) → Named t xs → Named t (kept_last xs)
Named-kept_last t xs n =
    either t (length xs == max_play_list_len) (rest xs) xs (Named-rest t xs n) n

pub Named-kept_front : (t : Store Text) (xs : List Entry) → Named t xs → Named t (kept_front xs)
Named-kept_front t xs n =
    either t (length xs == max_play_list_len) (all_but_last xs) xs (Named-all_but_last t xs n) n

module _ {m m' : Memory} {b : Blocks} {path : Text} {kept new : List Entry} {head : Ptr}
    (a : Added m b path kept new head m') (n : Named m.text kept) where
  new_name : text_at m'.text b.file ≡ (extract_file_name (text_at m'.text b.path)).0
  new_name =
      let path_text : text_at m'.text b.path ≡ path = ground (arith, a.new_path) in
      let file_text : text_at m'.text b.file ≡ (extract_file_name path).0 =
        ground (arith, a.new_file) in
      file_text ∙ sym (ap (λ s. (extract_file_name s).0) path_text)

  pub Added-kept : Named m'.text kept
  Added-kept = Named-same m.text m'.text kept a.same n

  pub Added-last : Named m'.text (kept ++ (entry b ∷ []))
  Added-last = Named-append m'.text kept (entry b ∷ []) Added-kept (new_name, tt)

  pub Added-front : Named m'.text (entry b ∷ kept)
  Added-front = (new_name, Added-kept)

pub Removal-Named :
    {m m' : Memory} {xs : List Entry} {x : Entry} {ys : List Entry} {head page : Ptr} {r : Removed}
    → IsPlaylist m head (xs ++ (x ∷ ys))
    → Removal m xs x ys page r m'
    → Named m.text (xs ++ (x ∷ ys))
    → Named m'.text (xs ++ ys)
Removal-Named {m} {m'} {xs} {x} {ys} is gone n =
    let f = freed xs x ys m.text is.texts is.owned in
    let (a, b) = Named-split m.text xs (x ∷ ys) n in
    Named-same m.text m'.text (xs ++ ys)
      (λ p i.
        gone.others p (mem-ne p x.path (strings (xs ++ ys)) i f.not_path)
          (mem-ne p x.file (strings (xs ++ ys)) i f.not_file))
      (Named-append m.text xs ys a b.1)

pub Named-exchanged :
    (t : Store Text) (xs : List Entry) (a b : Entry) (ys : List Entry)
    → Named t (xs ++ (a ∷ b ∷ ys))
    → Named t (exchanged xs a b ys)
Named-exchanged t xs a b ys n =
    let (l, r) = Named-split t xs (a ∷ b ∷ ys) n in
    Named-append t xs (with_strings a b ∷ with_strings b a ∷ ys) l (r.1.0, (r.0, r.1.1))
