-- ===== src/Lookup/Record.antt =====
-- lookup_proj/dict.h: the records of a dictionary and the result of `lookup`, and what a dictionary
-- file has to say about a word.
use mathlib.Core.Option.{some-injective}
use dcl140_2023_nov.Prelude.{
  ◌≡◌, ap, sym, ◌∙◌, Bool, true, false, ◌⊎◌, inl, inr, Option, none, some, List, [], ◌∷◌, Bytes,
  str_eq, str_eq_iff, Bool-cases, if◌then◌else◌,
}

-- `Dictrec`: the C strings in its two fields.
pub record Dictrec : Type 0 where
  pub word : Bytes
  pub text : Bytes

-- FOUND, NOTFOUND and UNAVAIL.
pub data Code : Type 0 where
  found notfound unavail : Code

-- A file of fixed-length records, and the file system that opens it by name.
abbrev pub File : Type 0
File = List Dictrec

abbrev pub FileSystem : Type 0
FileSystem = Bytes → Option File

-- The first record of a word.
unfoldable pub find : Bytes → File → Option Dictrec
find w [] = none
find w (r ∷ file) = if str_eq w r.word then some r else find w file

abbrev pub In : {A : Type 0} → A → List A → Type 0
In a [] = ⊥
In a (x ∷ xs) = (a ≡ x) ⊎ In a xs

-- What `find` finds is a record of the file, and its word is the word.
pub find_sound :
    (w : Bytes) (file : File) {r : Dictrec} → find w file ≡ some r → In r file × (r.word ≡ w)
unfolding find
find_sound w [] h = cc
find_sound w (x ∷ file) {r} h = elim (Bool-cases (str_eq w x.word)) [
  | inl e ↦
      let q = some-injective _ _ (rw e at h) in
      (inl (sym q), ap (λ (z : Dictrec). z.word) (sym q) ∙ sym ((str_eq_iff w x.word).0 e))
  | inr e ↦ let (i, q) = find_sound w file (rw e at h) in (inr i, q)
]

clash : {b : Bool} → b ≡ true → b ≡ false → ⊥
clash h k = cc

pub find_complete :
    (w : Bytes) (file : File) (r : Dictrec)
    → In r file
    → r.word ≡ w
    → (s : Dictrec) × (find w file ≡ some s)
unfolding find
find_complete w [] r i e = absurd i
find_complete w (x ∷ file) r i e = elim (Bool-cases (str_eq w x.word)) [
  | inl q ↦ (x, rw q)
  | inr q ↦ rw q (find_complete w file r (later q i) e)
]
  where
    later : str_eq w x.word ≡ false → In r (x ∷ file) → In r file
    later q (inr i) = i
    later q (inl h) =
        absurd (clash ((str_eq_iff w x.word).1 (sym e ∙ ap (λ (z : Dictrec). z.word) h)) q)
