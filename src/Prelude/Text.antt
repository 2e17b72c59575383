-- ===== src/Prelude/Text.antt =====
-- C strings as lists of bytes, their terminating NUL left out, with the comparisons of string.h.
use Prim.Native.Nat.{ℕ, zero, suc, ◌≤◌, ◌<◌}
use Prim.Native.Char.{code}
use Prim.Native.String.{String}
use mathlib.Core.Path.{◌≡◌, refl, ap}
use mathlib.Core.Logic.{◌↔◌, ◌≢◌, inl, inr}
use mathlib.Core.Bool.{Bool, true, false, ◌&&◌}
use mathlib.Core.List.{List, [], ◌∷◌, ◌++◌}
use native.Mathlib.Omega.{arith}
use dcl140_2023_nov.Prelude.Lists.{length, length-append}
use dcl140_2023_nov.Prelude.Tests.{◌==◌, Bool-cases, if◌then◌else◌}

abbrev pub Bytes : Type 0
Bytes = List ℕ

-- The bytes of an ASCII literal.
abbrev pub codes : String → Bytes
codes String.[] = []
codes (String.◌∷◌ c s) = code c ∷ codes s

-- `strcmp(a, b) == 0`
unfoldable pub str_eq : Bytes → Bytes → Bool
str_eq [] [] = true
str_eq [] (y ∷ ys) = false
str_eq (x ∷ xs) [] = false
str_eq (x ∷ xs) (y ∷ ys) = x == y && str_eq xs ys

pub str_eq_iff : (a b : Bytes) → (str_eq a b ≡ true) ↔ (a ≡ b)
unfolding str_eq
str_eq_iff [] [] = ground arith
str_eq_iff [] (y ∷ ys) = ground arith
str_eq_iff (x ∷ xs) [] = ground arith
str_eq_iff (x ∷ xs) (y ∷ ys) = ground (arith, str_eq_iff xs ys)

pub str_eq_refl : (a : Bytes) → str_eq a a ≡ true
str_eq_refl a = (str_eq_iff a a).1 refl

-- What a C function sees of a buffer: the bytes before the first NUL.
unfoldable pub c_str : Bytes → Bytes
c_str [] = []
c_str (x ∷ xs) = if x == 0 then [] else x ∷ c_str xs

-- `fgets(line, n + 1, file)`: at most n bytes, up to a newline, and what is left of the input.
unfoldable pub get_line : ℕ → Bytes → Bytes × Bytes
get_line zero s = ([], s)
get_line (suc n) [] = ([], [])
get_line (suc n) (c ∷ s) =
    if c == 0x0a then (c ∷ [], s) else (c ∷ (get_line n s).0, (get_line n s).1)

-- No byte of the input is lost or read twice: a piece and what is left of the input make it up.
-- A piece has at most n bytes, and is empty only at the end of the input.
pub get_line_lem :
    (n : ℕ) (s : Bytes)
    → ((get_line n s).0 ++ (get_line n s).1 ≡ s)
      × (length (get_line n s).0 ≤ n)
      × (0 < n → s ≢ [] → length (get_line n s).1 < length s)
unfolding get_line
get_line_lem zero s = (refl, omega arith, λ h k. absurd (omega arith))
get_line_lem (suc n) [] = (refl, omega arith, λ h k. absurd (k refl))
get_line_lem (suc n) (c ∷ s) = elim (Bool-cases (c == 0x0a)) [
  | inl e ↦ rw e (refl, omega arith, λ h k. omega arith)
  | inr e ↦
      let (whole, most, less) = get_line_lem n s in
      rw e (
        ap (λ z. c ∷ z) whole,
        omega arith,
        λ h k.
            omega
              (arith, ap (λ z. length z) whole, length-append (get_line n s).0 (get_line n s).1),
      )
]
