-- ===== src/Lookup/Mapped.antt =====
-- lookup_proj/lookup5.c: a binary search in the mapped file.
use dcl140_2023_nov.Prelude.{
  ◌≡◌, refl, ap, sym, ◌∙◌, Bool, true, false, ◌⊎◌, inl, inr, Option, none, some, List, [], Bytes,
  Option-cases, if◌then◌else◌,
}
use dcl140_2023_nov.Lookup.Record.{
  Dictrec, found, notfound, unavail, File, FileSystem, In, find, find_sound, find_complete,
}
use dcl140_2023_nov.Lookup.Linear.{Answer, answered}
use dcl140_2023_nov.Lookup.Search.{IsSorted, SearchLib}

abbrev pub RecordLib : Type 0
RecordLib = SearchLib Dictrec (λ r. r.word)

-- The static variables: `first_time`, and `table` with its `numrec` records.
pub record Mapped : Type 0 where
  pub first_time : Bool
  pub table : List Dictrec

abbrev pub start : Mapped
start = record { first_time = true; table = [] }

abbrev pub mapped : File → Mapped
mapped file = record { first_time = false; table = file }

copied : Mapped → Dictrec → Option Dictrec → Answer Mapped
copied s sought none = (notfound, sought, s)
copied s sought (some r) = (found, record sought { text = r.text }, s)

copied-answered :
    (s : Mapped) (sought : Dictrec) (o : Option Dictrec)
    → copied s sought o ≡ ((answered sought o).0, (answered sought o).1, s)
unfolding copied
copied-answered s sought none = refl
copied-answered s sought (some r) = refl

search_table : RecordLib → Mapped → Dictrec → Answer Mapped
unfolding copied
search_table lib s sought = copied s sought (lib.bsearch sought.word s.table)

map_file : RecordLib → Dictrec → Option File → Answer Mapped
unfolding search_table
map_file lib sought none = (unavail, sought, record { first_time = false; table = [] })
map_file lib sought (some file) = search_table lib (mapped file) sought

-- `mmap` is taken to succeed.
unfoldable pub lookup5 : RecordLib → FileSystem → Mapped → Dictrec → Bytes → Answer Mapped
unfolding map_file search_table
lookup5 lib fs s sought resource =
    if s.first_time then map_file lib sought (fs resource) else search_table lib s sought

-- No two records of the file have one word.
abbrev pub Distinct : File → Type 0
Distinct file = (r s : Dictrec) → In r file → In s file → r.word ≡ s.word → r ≡ s

module _ (lib : RecordLib) (file : File) (sorted : IsSorted (λ (r : Dictrec). r.word) file)
    (distinct : Distinct file) where
  bsearch-find : (w : Bytes) → lib.bsearch w file ≡ find w file
  bsearch-find w = elim (Option-cases (lib.bsearch w file)) [
    | inr (x, e) ↦
        let (i, q) = lib.bsearch_sound w file e in
        let (y, f) = find_complete w file x i q in
        let (j, r) = find_sound w file f in e ∙ ap some (distinct x y i j (q ∙ sym r)) ∙ sym f
    | inl e ↦ elim (Option-cases (find w file)) [
      | inl f ↦ e ∙ sym f
      | inr (y, f) ↦
          let (j, r) = find_sound w file f in absurd (lib.bsearch_complete w file y sorted j r e)
    ]
  ]

  -- With a file behind the resource that is in order and has one record for each word, the binary
  -- search in the mapped file answers, at the first call and at every later one, as the linear
  -- search does.
  pub lookup5-find :
      (fs : FileSystem) (resource : Bytes) (sought : Dictrec) (s : Mapped)
      → fs resource ≡ some file
      → (s ≡ start) ⊎ (s ≡ mapped file)
      → lookup5 lib fs s sought resource ≡ (
        (answered sought (find sought.word file)).0,
        (answered sought (find sought.word file)).1,
        mapped file,
      )
  unfolding lookup5
  lookup5-find fs resource sought s h (inl e) =
      rw (e, h)
        (ap (copied (mapped file) sought) (bsearch-find sought.word)
          ∙ copied-answered (mapped file) sought (find sought.word file))
  lookup5-find fs resource sought s h (inr e) = rw e (
      ap (copied (mapped file) sought) (bsearch-find sought.word)
      ∙ copied-answered (mapped file) sought (find sought.word file))
