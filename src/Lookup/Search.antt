-- ===== src/Lookup/Search.antt =====
-- `strcmp` as an order, and what ISO C says of `bsearch` and `qsort`. The standard leaves their
-- algorithms open, so they are parameters here.
use dcl140_2023_nov.Prelude.{
  ◌≡◌, ◌≢◌, Bool, true, false, ltb, Option, none, some, List, [], ◌∷◌, Bytes, ◌==◌, if◌then◌else◌,
}
use dcl140_2023_nov.Lookup.Record.{In}

-- `strcmp(a, b) <= 0`, by unsigned bytes; a string is before its extensions.
unfoldable pub str_le : Bytes → Bytes → Bool
str_le [] b = true
str_le (x ∷ a) [] = false
str_le (x ∷ a) (y ∷ b) = let rest = str_le a b in if x == y then rest else ltb x y

-- In an array in order every element is at most each one behind it.
abbrev pub Below : {A : Type 0} → (A → Bytes) → Bytes → List A → Type 0
Below word w [] = Unit
Below word w (x ∷ xs) = (str_le w (word x) ≡ true) × Below word w xs

abbrev pub IsSorted : {A : Type 0} → (A → Bytes) → List A → Type 0
IsSorted word [] = Unit
IsSorted word (x ∷ xs) = Below word (word x) xs × IsSorted word xs

-- `bsearch` and `qsort` on elements that are compared by a string in them.
pub record SearchLib (A : Type 0) (word : A → Bytes) : Type 0 where
  pub bsearch : Bytes → List A → Option A
  pub qsort : List A → List A
  -- an element that `bsearch` returns is one of the array and compares equal
  pub bsearch_sound :
      (w : Bytes) (a : List A) {x : A} → bsearch w a ≡ some x → In x a × (word x ≡ w)
  -- in an array in order, an element that compares equal is not missed
  pub bsearch_complete :
      (w : Bytes) (a : List A) (x : A) → IsSorted word a → In x a → word x ≡ w → bsearch w a ≢ none
  -- `qsort` leaves the same elements, in order
  pub qsort_keeps : (a : List A) (x : A) → In x a → In x (qsort a)
  pub qsort_adds_none : (a : List A) (x : A) → In x (qsort a) → In x a
  pub qsort-IsSorted : (a : List A) → IsSorted word (qsort a)
