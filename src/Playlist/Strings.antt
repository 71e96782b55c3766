-- ===== src/Playlist/Strings.antt =====
-- The strings of a list when some are freed or new ones come.
use slogger.Base.{sym, ◌≡◌, ◌≢◌, false, Option, none, List, [], ◌∷◌, ◌++◌, arith}
use slogger.Memory.{Ptr, Text, Store, upd}
use slogger.Memory.Update.{has, NoDup, upd_other, NoDup-cut, NoDup-middle, NoDup-split}
use slogger.Playlist.Entries.{Entry, strings, strings-append, Allocated}

module _ (t : Store Text) where
  pub Allocated-upd :
      (p : Ptr) (c : Option Text) (ps : List Ptr)
      → has p ps ≡ false
      → Allocated t ps
      → Allocated (upd t p c) ps
  Allocated-upd p c [] out a = tt
  Allocated-upd p c (q ∷ qs) out (here, a) =
      (rw (upd_other t p q c (ground arith)) here, Allocated-upd p c qs (ground arith) a)

  pub Allocated-append :
      (ps qs : List Ptr) → Allocated t ps → Allocated t qs → Allocated t (ps ++ qs)
  Allocated-append [] qs a b = b
  Allocated-append (p ∷ ps) qs (here, a) b = (here, Allocated-append ps qs a b)

  pub Allocated-split :
      (ps qs : List Ptr) → Allocated t (ps ++ qs) → Allocated t ps × Allocated t qs
  Allocated-split [] qs a = (tt, a)
  Allocated-split (p ∷ ps) qs (here, a) = let (b, c) = Allocated-split ps qs a in ((here, b), c)

pub first_ne : {p q : Ptr} (ps : List Ptr) → p ≡ q → NoDup (p ∷ q ∷ ps) → ⊥
first_ne ps e d = ground arith

-- What is left of the strings when the two of `x` are freed.
pub record Freed (xs : List Entry) (x : Entry) (ys : List Entry) (t : Store Text) : Type 0 where
  pub file : t x.file ≢ none
  pub path : upd t x.file none x.path ≢ none
  pub texts : NoDup (strings (xs ++ ys))
  pub not_path : has x.path (strings (xs ++ ys)) ≡ false
  pub not_file : has x.file (strings (xs ++ ys)) ≡ false
  pub path_first : t x.path ≢ none
  pub file_second : upd t x.path none x.file ≢ none
  pub owned_too : Allocated (upd (upd t x.path none) x.file none) (strings (xs ++ ys))
  pub owned : Allocated (upd (upd t x.file none) x.path none) (strings (xs ++ ys))

pub freed :
    (xs : List Entry) (x : Entry) (ys : List Entry) (t : Store Text)
    → NoDup (strings (xs ++ (x ∷ ys)))
    → Allocated t (strings (xs ++ (x ∷ ys)))
    → Freed xs x ys t
freed xs x ys t d a =
    let own = x.path ∷ x.file ∷ [] in
    let d' : NoDup (strings xs ++ (own ++ strings ys)) = rw strings-append at d in
    let a' : Allocated t (strings xs ++ (own ++ strings ys)) = rw strings-append at a in
    let (a1, (here_path, (here_file, a2))) =
      Allocated-split t (strings xs) (own ++ strings ys) a' in
    let rest : Allocated t (strings (xs ++ ys)) =
      rw strings-append (Allocated-append t (strings xs) (strings ys) a1 a2) in
    let out_file : has x.file (strings (xs ++ ys)) ≡ false =
      rw strings-append (NoDup-middle x.file (strings xs) own (strings ys) d' (ground arith)) in
    let out_path : has x.path (strings (xs ++ ys)) ≡ false =
      rw strings-append (NoDup-middle x.path (strings xs) own (strings ys) d' (ground arith)) in
    let ne : x.path ≢ x.file =
      (λ same. first_ne (strings ys) same (NoDup-split (strings xs) (own ++ strings ys) d').1) in
    record {
      file = here_file;
      path = rw (upd_other t x.file x.path none ne) here_path;
      texts = rw strings-append (NoDup-cut (strings xs) own (strings ys) d');
      not_path = out_path;
      not_file = out_file;
      path_first = here_path;
      file_second = rw (upd_other t x.path x.file none (λ e. ne (sym e))) here_file;
      owned_too =
          Allocated-upd (upd t x.path none) x.file none _ out_file
            (Allocated-upd t x.path none _ out_path rest);
      owned =
          Allocated-upd (upd t x.file none) x.path none _ out_path
            (Allocated-upd t x.file none _ out_file rest);
    }
