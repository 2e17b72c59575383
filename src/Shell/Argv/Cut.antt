-- ===== src/Shell/Argv/Cut.antt =====
-- A list of tokens cut at the first occurrence of a symbol.
use mathlib.Core.List.{map-append, append_assoc}
use dcl140_2023_nov.Prelude.{
  ◌≡◌, refl, ap, ◌⊎◌, inl, inr, List, [], ◌∷◌, ◌++◌, map, arith, Bytes, str_eq, str_eq_iff,
  Bool-cases, if◌then◌else◌,
}
use dcl140_2023_nov.Shell.Argv.Defs.{Slot, str, vector}
use dcl140_2023_nov.Shell.Argv.Scan.{Lacks}

-- The tokens before the first symbol, and those from it on.
unfoldable pub before : Bytes → List Bytes → List Bytes
before s [] = []
before s (t ∷ ts) = if str_eq t s then [] else t ∷ before s ts

unfoldable pub from : Bytes → List Bytes → List Bytes
from s [] = []
from s (t ∷ ts) = if str_eq t s then t ∷ ts else from s ts

pub before-from : (s : Bytes) (ts : List Bytes) → before s ts ++ from s ts ≡ ts
unfolding before from
before-from s [] = refl
before-from s (t ∷ ts) = ground (arith, before-from s ts)

pub Lacks-before : (s : Bytes) (ts : List Bytes) → Lacks s (before s ts)
unfolding before
Lacks-before s [] = tt
Lacks-before s (t ∷ ts) = elim (Bool-cases (str_eq t s)) [
  | inl e ↦ rw e tt
  | inr e ↦ rw e (e, Lacks-before s ts)
]

-- What the symbol's part of the list is: nothing, or the symbol and what follows.
pub from_head :
    (s : Bytes) (ts : List Bytes)
    → (from s ts ≡ []) ⊎ ((post : List Bytes) × (from s ts ≡ s ∷ post))
unfolding from
from_head s [] = inl refl
from_head s (t ∷ ts) = elim (Bool-cases (str_eq t s)) [
  | inl e ↦ rw e (inr (ts, ap (λ x. x ∷ ts) ((str_eq_iff t s).0 e)))
  | inr e ↦ rw e (from_head s ts)
]

pub vector-append :
    (pre tail : List Bytes) (rest : List Slot)
    → vector (pre ++ tail) rest ≡ map str pre ++ vector tail rest
vector-append pre tail rest = simp (map-append, append_assoc)
