-- ===== src/Sync/Sums.antt =====
-- A sum over the threads of a program, as one of them changes.
use std.Path.{subst}
use mathlib.Core.Option.{some-injective}
use dcl140_2023_nov.Prelude.{
  ℕ, zero, suc, ◌+◌, ◌≤◌, ◌<◌, ◌≡◌, refl, some, List, [], ◌∷◌, ◌++◌, get_elem?, set, arith, All,
  ◌⊎◌, inl, inr,
}

pub zero_or_pos : (n : ℕ) → (n ≡ 0) ⊎ (0 < n)
zero_or_pos zero = inl refl
zero_or_pos (suc n) = inr (omega arith)

module _ {A : Type 0} where
  unfoldable pub total : (A → ℕ) → List A → ℕ
  total w [] = 0
  total w (c ∷ cs) = w c + total w cs

  pub total-set :
      (w : A → ℕ) (cs : List A) (i : ℕ) (c d : A)
      → get_elem? cs i ≡ some c
      → total w (set cs i d) + w c ≡ total w cs + w d
  unfolding total
  total-set w [] i c d h = cc
  total-set w (x ∷ cs) zero c d h = let e : x ≡ c = some-injective _ _ h in rw e (omega arith)
  total-set w (x ∷ cs) (suc i) c d h = omega (arith, total-set w cs i c d h)

  -- A sum that is not 0 has a member that is not.
  pub total_pos :
      (w : A → ℕ) (cs : List A)
      → 0 < total w cs
      → (i : ℕ) × (c : A) × (get_elem? cs i ≡ some c) × (0 < w c)
  unfolding total
  total_pos w [] h = absurd (omega arith)
  total_pos w (c ∷ cs) h = elim (zero_or_pos (w c)) [
    | inr p ↦ (0, c, refl, p)
    | inl z ↦ let (i, d, g, p) = total_pos w cs (omega (arith, z, h)) in (suc i, d, g, p)
  ]

  pub All-set : (P : A → Type 0) (cs : List A) (i : ℕ) (d : A) → All P cs → P d → All P (set cs i d)
  All-set P [] i d h p = tt
  All-set P (x ∷ cs) zero d h p = (p, h.1)
  All-set P (x ∷ cs) (suc i) d h p = (h.0, All-set P cs i d h.1 p)

  pub All-get_elem? :
      (P : A → Type 0) (cs : List A) (i : ℕ) (c : A) → All P cs → get_elem? cs i ≡ some c → P c
  All-get_elem? P [] i c h e = cc
  All-get_elem? P (x ∷ cs) zero c h e = subst P (some-injective _ _ e) h.0
  All-get_elem? P (x ∷ cs) (suc i) c h e = All-get_elem? P cs i c h.1 e

  pub total-append : (w : A → ℕ) (cs ds : List A) → total w (cs ++ ds) ≡ total w cs + total w ds
  unfolding total
  total-append w [] ds = omega arith
  total-append w (c ∷ cs) ds = omega (arith, total-append w cs ds)

  pub All-append : (P : A → Type 0) (cs ds : List A) → All P cs → All P ds → All P (cs ++ ds)
  All-append P [] ds h k = k
  All-append P (c ∷ cs) ds h k = (h.0, All-append P cs ds h.1 k)

  pub get_elem?-le-total :
      (w : A → ℕ) (cs : List A) (i : ℕ) (c : A) → get_elem? cs i ≡ some c → w c ≤ total w cs
  unfolding total
  get_elem?-le-total w [] i c h = cc
  get_elem?-le-total w (x ∷ cs) zero c h =
      let e : x ≡ c = some-injective _ _ h in rw e (omega arith)
  get_elem?-le-total w (x ∷ cs) (suc i) c h = omega (arith, get_elem?-le-total w cs i c h)
