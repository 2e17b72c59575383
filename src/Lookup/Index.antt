-- ===== src/Lookup/Index.antt =====
-- lookup_proj/lookup2.c: a sorted index of words and offsets into the file.
use mathlib.Core.Option.{some-injective}
use dcl140_2023_nov.Prelude.{
  ℕ, zero, suc, ◌+◌, ◌*◌, ◌/◌, ◌≡◌, ◌≢◌, refl, ap, sym, ◌∙◌, Bool, true, false, ◌⊎◌, inl, inr,
  Option, none, some, List, [], ◌∷◌, arith, get_elem?, Bytes, Option-cases, if◌then◌else◌,
}
use dcl140_2023_nov.Lookup.Record.{
  Dictrec, found, notfound, unavail, File, FileSystem, In, find, find_sound, find_complete,
}
use dcl140_2023_nov.Lookup.Linear.{Answer, answered}
use dcl140_2023_nov.Lookup.Mapped.{Distinct}
use dcl140_2023_nov.Lookup.Search.{SearchLib}

-- `Index`, and `sizeof(Dictrec)`.
pub record Index : Type 0 where
  pub word : Bytes
  pub off : ℕ

abbrev pub record_size : ℕ
record_size = 512

abbrev pub IndexLib : Type 0
IndexLib = SearchLib Index (λ e. e.word)

-- The static variables.
pub record Indexed : Type 0 where
  pub first_time : Bool
  pub table : List Index
  pub in_file : Option File

abbrev pub start : Indexed
start = record { first_time = true; table = []; in_file = none }

-- The loop that fills the table, from the i-th record on.
unfoldable pub fill : File → ℕ → List Index
fill [] i = []
fill (dr ∷ file) i = record { word = dr.word; off = i * record_size } ∷ fill file (i + 1)

-- `fseek(in, off, SEEK_SET)` and `fread(sought, sizeof(dr), 1, in)`; a read behind the end of the
-- file leaves the record alone.
read_at : ℕ → File → Dictrec → Dictrec
read_at off file sought = elim (get_elem? file (off / record_size)) [ none ↦ sought | some r ↦ r ]

seek : Indexed → Dictrec → Option Index → Option File → Option (Answer Indexed)
unfolding read_at
seek s sought none file = some (notfound, sought, s)
seek s sought (some e) none = none
seek s sought (some e) (some file) = some (found, read_at e.off file sought, s)

search_index : IndexLib → Indexed → Dictrec → Option (Answer Indexed)
unfolding seek
search_index lib s sought = seek s sought (lib.bsearch sought.word s.table) s.in_file

abbrev pub indexed : IndexLib → File → Indexed
indexed lib file = record {
  first_time = false;
  table = lib.qsort (fill file 0);
  in_file = some file;
}

make_index : IndexLib → Dictrec → Option File → Option (Answer Indexed)
unfolding search_index
make_index lib sought none =
    some (unavail, sought, record { first_time = false; table = []; in_file = none })
make_index lib sought (some file) = search_index lib (indexed lib file) sought

unfoldable pub lookup2 : IndexLib → FileSystem → Indexed → Dictrec → Bytes → Option (Answer Indexed)
unfolding make_index search_index
lookup2 lib fs s sought resource =
    if s.first_time then make_index lib sought (fs resource) else search_index lib s sought

-- An entry of the table leads to the record that it was made from, and each record has one.
fill_sound :
    (file : File) (i : ℕ) (e : Index)
    → In e (fill file i)
    → (j : ℕ) × (r : Dictrec) × (get_elem? file j ≡ some r)
      × (r.word ≡ e.word)
      × (e.off ≡ (i + j) * record_size)
unfolding fill
fill_sound [] i e h = absurd h
fill_sound (r ∷ file) i e (inl h) =
    (0, r, refl, sym (ap (λ (z : Index). z.word) h), ap (λ (z : Index). z.off) h ∙ omega arith)
fill_sound (r ∷ file) i e (inr h) =
    let (j, s, g, w, o) = fill_sound file (i + 1) e h in (suc j, s, g, w, omega (arith, o))

fill_complete :
    (file : File) (i : ℕ) (r : Dictrec)
    → In r file
    → (e : Index) × In e (fill file i) × (e.word ≡ r.word)
unfolding fill
fill_complete [] i r h = absurd h
fill_complete (x ∷ file) i r (inl h) = (
  record { word = x.word; off = i * record_size },
  inl refl,
  ap (λ (z : Dictrec). z.word) (sym h),
)
fill_complete (x ∷ file) i r (inr h) =
    let (e, j, w) = fill_complete file (i + 1) r h in (e, inr j, w)

get_elem?-In : (file : File) (j : ℕ) (r : Dictrec) → get_elem? file j ≡ some r → In r file
get_elem?-In [] j r h = cc
get_elem?-In (x ∷ file) zero r h = inl (sym (some-injective _ _ h))
get_elem?-In (x ∷ file) (suc j) r h = inr (get_elem?-In file j r h)

read_at-get_elem? :
    (off : ℕ) (file : File) (sought : Dictrec) (j : ℕ) (r : Dictrec)
    → off / record_size ≡ j
    → get_elem? file j ≡ some r
    → read_at off file sought ≡ r
unfolding read_at
read_at-get_elem? off file sought j r h g = rw (ap (get_elem? file) h ∙ g, read_at)

-- What `lookup2` may answer: NOTFOUND, if no record has the word; or FOUND and a record of the word.
pub data Outcome (lib : IndexLib) (file : File) (sought : Dictrec) (a : Option (Answer Indexed))
    : Type 0 where
  missing :
      ((r : Dictrec) → In r file → r.word ≢ sought.word)
      → a ≡ some (notfound, sought, indexed lib file)
      → Outcome lib file sought a
  present :
      (r : Dictrec)
      → In r file
      → r.word ≡ sought.word
      → a ≡ some (found, r, indexed lib file)
      → Outcome lib file sought a

-- A record with the word that was sought, as the linear search would have copied it.
same_record :
    (sought r y : Dictrec) → r ≡ y → r.word ≡ sought.word → r ≡ record sought { text = y.text }
same_record sought r y e w = λ i. record { word = w i; text = (e i).text }

module _ (lib : IndexLib) (file : File) (sought : Dictrec) where
  seek-Outcome :
      (o : Option Index)
      → lib.bsearch sought.word (lib.qsort (fill file 0)) ≡ o
      → Outcome lib file sought (seek (indexed lib file) sought o (some file))
  unfolding seek
  seek-Outcome none h = missing (λ r i e. absurd (none_missed r i e)) refl
    where
      none_missed : (r : Dictrec) → In r file → r.word ≡ sought.word → ⊥
      none_missed r i e =
          let (x, j, w) = fill_complete file 0 r i in
          lib.bsearch_complete sought.word (lib.qsort (fill file 0)) x
            (lib.qsort-IsSorted (fill file 0)) (lib.qsort_keeps (fill file 0) x j) (w ∙ e) h
  seek-Outcome (some e) h =
      let (i, w) = lib.bsearch_sound sought.word (lib.qsort (fill file 0)) h in
      let (j, r, g, q, o) = fill_sound file 0 e (lib.qsort_adds_none (fill file 0) e i) in
      let at_j : e.off / record_size ≡ j = omega (arith, o) in
      present r (get_elem?-In file j r g) (q ∙ w) (
        ap (λ z. some (found, z, indexed lib file))
          (read_at-get_elem? e.off file sought j r at_j g))

  -- With a file behind the resource, sorted or not, the first call of the index search and every
  -- later one end without a fault and answer NOTFOUND with the record as it was exactly if no
  -- record of the file has the word, and else FOUND with a record of the file that has it.
  lookup2-Outcome :
      (fs : FileSystem) (resource : Bytes) (s : Indexed)
      → fs resource ≡ some file
      → (s ≡ start) ⊎ (s ≡ indexed lib file)
      → Outcome lib file sought (lookup2 lib fs s sought resource)
  unfolding lookup2
  lookup2-Outcome fs resource s h (inl e) = rw (e, h) (seek-Outcome _ refl)
  lookup2-Outcome fs resource s h (inr e) = rw e (seek-Outcome _ refl)

  -- With a file behind the resource that has one record for each word, the search by a sorted
  -- index of words and offsets answers, at the first call and at every later one, as the linear
  -- search through the file does.
  pub lookup2-find :
      (fs : FileSystem) (resource : Bytes) (s : Indexed)
      → Distinct file
      → fs resource ≡ some file
      → (s ≡ start) ⊎ (s ≡ indexed lib file)
      → lookup2 lib fs s sought resource
        ≡ some (
          (answered sought (find sought.word file)).0,
          (answered sought (find sought.word file)).1,
          indexed lib file,
        )
  lookup2-find fs resource s distinct h c = from_outcome _ (lookup2-Outcome fs resource s h c)
    where
      from_outcome :
          (a : Option (Answer Indexed))
          → Outcome lib file sought a
          → a
            ≡ some (
              (answered sought (find sought.word file)).0,
              (answered sought (find sought.word file)).1,
              indexed lib file,
            )
      from_outcome _ (missing no_record e) = elim (Option-cases (find sought.word file)) [
        | inl f ↦ e ∙ rw f
        | inr (y, f) ↦ let (j, q) = find_sound sought.word file f in absurd (no_record y j q)
      ]
      from_outcome _ (present r i w e) =
          let (y, f) = find_complete sought.word file r i w in
          let (j, q) = find_sound sought.word file f in
          e
          ∙ rw f (
              ap (λ z. some (found, z, indexed lib file))
                (same_record sought r y (distinct r y i j (w ∙ sym q)) w))
