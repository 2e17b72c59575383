-- ===== src/Lookup/Tests/Library.antt =====
-- A linear search and an insertion sort, which are a `bsearch` and a `qsort`.
use dcl140_2023_nov.Prelude.{
  ◌≡◌, ◌≢◌, refl, ap, sym, ◌∙◌, true, false, ◌⊎◌, inl, inr, Option, none, some, List, [], ◌∷◌,
  arith, Bytes, if◌then◌else◌, Bool-cases, str_eq, str_eq_iff,
}
use dcl140_2023_nov.Lookup.Record.{In}
use dcl140_2023_nov.Lookup.Search.{str_le, Below, IsSorted, SearchLib}

str_le_total : (a b : Bytes) → (str_le a b ≡ true) ⊎ (str_le b a ≡ true)
unfolding str_le
str_le_total [] b = inl refl
str_le_total (x ∷ a) [] = inr refl
str_le_total (x ∷ a) (y ∷ b) = let ih = str_le_total a b in ground (arith, ih)

str_le_trans : (a b c : Bytes) → str_le a b ≡ true → str_le b c ≡ true → str_le a c ≡ true
unfolding str_le
str_le_trans [] b c h k = refl
str_le_trans (x ∷ a) [] c h k = cc
str_le_trans (x ∷ a) (y ∷ b) [] h k = cc
str_le_trans (x ∷ a) (y ∷ b) (z ∷ c) h k = let ih = str_le_trans a b c in ground (arith, ih)

module _ {A : Type 0} (word : A → Bytes) where
  search : Bytes → List A → Option A
  search w [] = none
  search w (x ∷ xs) = if str_eq w (word x) then some x else search w xs

  insert : A → List A → List A
  insert x [] = x ∷ []
  insert x (y ∷ ys) = if str_le (word x) (word y) then x ∷ y ∷ ys else y ∷ insert x ys

  sort : List A → List A
  sort [] = []
  sort (x ∷ xs) = insert x (sort xs)

  search_sound : (w : Bytes) (a : List A) {x : A} → search w a ≡ some x → In x a × (word x ≡ w)
  unfolding search
  search_sound w [] h = cc
  search_sound w (y ∷ a) {x} h = elim (Bool-cases (str_eq w (word y))) [
    | inl e ↦
        let q : y ≡ x = ground (arith, h, e) in
        (inl (sym q), ap word (sym q) ∙ sym ((str_eq_iff w (word y)).0 e))
    | inr e ↦ let (i, q) = search_sound w a (rw e at h) in (inr i, q)
  ]

  same_word : {v w : Bytes} → w ≡ v → str_eq w v ≡ false → ⊥
  same_word {v} {w} e q = ground (arith, q, (str_eq_iff w v).1 e)

  search_complete : (w : Bytes) (a : List A) (x : A) → In x a → word x ≡ w → search w a ≢ none
  unfolding search
  search_complete w [] x i e n = i
  search_complete w (y ∷ a) x i e n = elim (Bool-cases (str_eq w (word y))) [
    | inl q ↦ ground (arith, n, q)
    | inr q ↦ elim i [
      | inl h ↦ same_word (sym e ∙ ap word h) q
      | inr j ↦ search_complete w a x j e (rw q at n)
    ]
  ]

  insert-In : (x y : A) (xs : List A) → In y (x ∷ xs) → In y (insert x xs)
  unfolding insert
  insert-In x y [] i = i
  insert-In x y (z ∷ xs) i = elim (Bool-cases (str_le (word x) (word z))) [
    | inl e ↦ rw e i
    | inr e ↦ rw e (elim i [
      | inl h ↦ inr (insert-In x y xs (inl h))
      | inr j ↦ elim j [ inl h ↦ inl h | inr k ↦ inr (insert-In x y xs (inr k)) ]
    ])
  ]

  In-insert : (x y : A) (xs : List A) → In y (insert x xs) → In y (x ∷ xs)
  unfolding insert
  In-insert x y [] i = i
  In-insert x y (z ∷ xs) i = elim (Bool-cases (str_le (word x) (word z))) [
    | inl e ↦ rw e at i
    | inr e ↦ elim (rw e at i) [
      | inl h ↦ inr (inl h)
      | inr j ↦ elim (In-insert x y xs j) [ inl h ↦ inl h | inr k ↦ inr (inr k) ]
    ]
  ]

  sort_keeps : (a : List A) (x : A) → In x a → In x (sort a)
  unfolding sort
  sort_keeps [] x i = i
  sort_keeps (y ∷ a) x (inl h) = insert-In y x (sort a) (inl h)
  sort_keeps (y ∷ a) x (inr i) = insert-In y x (sort a) (inr (sort_keeps a x i))

  sort_adds_none : (a : List A) (x : A) → In x (sort a) → In x a
  unfolding sort
  sort_adds_none [] x i = i
  sort_adds_none (y ∷ a) x i = elim (In-insert y x (sort a) i) [
    | inl h ↦ inl h
    | inr j ↦ inr (sort_adds_none a x j)
  ]

  Below-trans : (v w : Bytes) (xs : List A) → str_le v w ≡ true → Below word w xs → Below word v xs
  Below-trans v w [] h b = tt
  Below-trans v w (x ∷ xs) h b = (str_le_trans v w (word x) h b.0, Below-trans v w xs h b.1)

  Below-insert :
      (w : Bytes) (x : A) (xs : List A)
      → str_le w (word x) ≡ true
      → Below word w xs
      → Below word w (insert x xs)
  unfolding insert
  Below-insert w x [] h b = (h, tt)
  Below-insert w x (y ∷ xs) h b = elim (Bool-cases (str_le (word x) (word y))) [
    | inl e ↦ rw e (h, b)
    | inr e ↦ rw e (b.0, Below-insert w x xs h b.1)
  ]

  insert-IsSorted : (x : A) (xs : List A) → IsSorted word xs → IsSorted word (insert x xs)
  unfolding insert
  insert-IsSorted x [] s = (tt, tt)
  insert-IsSorted x (y ∷ xs) s = elim (Bool-cases (str_le (word x) (word y))) [
    | inl e ↦ rw e ((e, Below-trans (word x) (word y) xs e s.0), s)
    | inr e ↦
        let le : str_le (word y) (word x) ≡ true =
          ground (arith, str_le_total (word x) (word y), e) in
        rw e (Below-insert (word y) x xs le s.0, insert-IsSorted x xs s.1)
  ]

  sort-IsSorted : (a : List A) → IsSorted word (sort a)
  unfolding sort
  sort-IsSorted [] = tt
  sort-IsSorted (x ∷ a) = insert-IsSorted x (sort a) (sort-IsSorted a)

  pub library : SearchLib A word
  library = record {
    bsearch = search;
    qsort = sort;
    bsearch_sound = search_sound;
    bsearch_complete = λ w a x s i e. search_complete w a x i e;
    qsort_keeps = sort_keeps;
    qsort_adds_none = sort_adds_none;
    qsort-IsSorted = sort-IsSorted;
  }
