-- ===== src/Lookup/Linear.antt =====
-- lookup_proj/lookup1.c: a linear search through the file.
use dcl140_2023_nov.Prelude.{
  ◌≡◌, refl, Bool, true, false, Option, none, some, [], ◌∷◌, Bytes, str_eq, ◌⊎◌, Bool-cases, inl,
  inr, if◌then◌else◌,
}
use dcl140_2023_nov.Lookup.Record.{Dictrec, Code, found, notfound, unavail, File, FileSystem, find}

-- The static variables `first_time` and `in`.
pub record Linear : Type 0 where
  pub first_time : Bool
  pub in_file : Option File

abbrev pub start : Linear
start = record { first_time = true; in_file = none }

-- What `lookup` returns, the record that it was given, and its static variables.
abbrev pub Answer : Type 0 → Type 0
Answer S = Code × Dictrec × S

-- `while (fread(...) == 1) if (strcmp(...) == 0) ...`, from where the file stands.
unfoldable pub search_file : File → Dictrec → Code × Dictrec
search_file [] sought = (notfound, sought)
search_file (dr ∷ file) sought =
    if str_eq sought.word dr.word
    then (found, record sought { text = dr.text })
    else search_file file sought

-- `rewind(in)` on a NULL `in` is a fault.
read_from_top : Linear → Dictrec → Option File → Option (Answer Linear)
read_from_top s sought none = none
read_from_top s sought (some file) = let (c, r) = search_file file sought in some (c, r, s)

open_file : Dictrec → Option File → Option (Answer Linear)
unfolding read_from_top
open_file sought none = some (unavail, sought, record { first_time = false; in_file = none })
open_file sought (some file) =
    read_from_top (record { first_time = false; in_file = some file }) sought (some file)

unfoldable pub lookup1 : FileSystem → Linear → Dictrec → Bytes → Option (Answer Linear)
unfolding open_file read_from_top
lookup1 fs s sought resource =
    if s.first_time then open_file sought (fs resource) else read_from_top s sought s.in_file

-- The answer for the first record of the word.
abbrev pub answered : Dictrec → Option Dictrec → Code × Dictrec
answered sought none = (notfound, sought)
answered sought (some r) = (found, record sought { text = r.text })

search_file-find :
    (file : File) (sought : Dictrec)
    → search_file file sought ≡ answered sought (find sought.word file)
unfolding search_file find
search_file-find [] sought = refl
search_file-find (r ∷ file) sought = elim (Bool-cases (str_eq sought.word r.word)) [
  | inl e ↦ rw e
  | inr e ↦ rw e (search_file-find file sought)
]

-- The state in which the file is open.
abbrev pub opened : File → Linear
opened file = record { first_time = false; in_file = some file }

-- With a file behind the resource, the first call of the linear search and every later one answer
-- by the first record of the word, FOUND with its text, or NOTFOUND with the record as it was, and
-- leave the file open.
pub lookup1-find :
    (fs : FileSystem) (resource : Bytes) (file : File) (sought : Dictrec) (s : Linear)
    → fs resource ≡ some file
    → (s ≡ start) ⊎ (s ≡ opened file)
    → lookup1 fs s sought resource
      ≡ some (
        (answered sought (find sought.word file)).0,
        (answered sought (find sought.word file)).1,
        opened file,
      )
unfolding lookup1
lookup1-find fs resource file sought s h (inl e) = rw (e, h) (rw (search_file-find file sought))
lookup1-find fs resource file sought s h (inr e) = rw e (rw (search_file-find file sought))

-- Without the file the first call of the linear search answers UNAVAIL and leaves the record
-- alone, and every call after it uses a NULL stream.
lookup1_unavail :
    (fs : FileSystem) (resource : Bytes) (sought : Dictrec)
    → fs resource ≡ none
    → (s : Linear) × (lookup1 fs start sought resource ≡ some (unavail, sought, s))
      × ((again : Dictrec) → lookup1 fs s again resource ≡ none)
unfolding lookup1
lookup1_unavail fs resource sought h =
    (record { first_time = false; in_file = none }, rw h, λ again. refl)
