-- ===== src/Shell/Parse/Words.antt =====
-- `parse` meets a description of the words of a line that knows nothing of strtok.
use mathlib.Core.List.{map-append, append-nil, append_assoc}
use dcl140_2023_nov.Prelude.{
  ℕ, zero, suc, ◌+◌, ◌<◌, ◌≤◌, ◌≡◌, refl, ap, ◌∙◌, false, Option, none, some, List, [], ◌∷◌, ◌++◌,
  map, arith, length, length-append, Bytes, ◌⊎◌, sym, inl, inr, Bool-cases, if◌then◌else◌, ◌>>=◌,
}
use dcl140_2023_nov.Shell.Argv.{Slot, junk, null, str, vector, store_here}
use dcl140_2023_nov.Shell.Parse.Defs.{
  delim, skip, span, strtok, parse_loop, Parsed, nothing, argv, parse,
}

-- Put a byte in front of the word that a list of words begins with.
abbrev pub into_first : ℕ → List Bytes → List Bytes
into_first c [] = (c ∷ []) ∷ []
into_first c (w ∷ ws) = (c ∷ w) ∷ ws

-- A byte belongs to the word of the byte behind it, unless that is a delimiter or the end.
abbrev attach : ℕ → Bytes → List Bytes → List Bytes
attach c [] ws = (c ∷ []) ∷ ws
attach c (d ∷ s) ws = if delim d then (c ∷ []) ∷ ws else into_first c ws

-- The maximal runs of bytes that are no delimiters, in order.
unfoldable pub words : Bytes → List Bytes
words [] = []
words (c ∷ s) = if delim c then words s else attach c s (words s)

words-skip : (s : Bytes) → words (skip s) ≡ words s
unfolding words skip
words-skip [] = refl
words-skip (c ∷ s) = ground (arith, words-skip s)

-- The first byte of what `skip` leaves is no delimiter.
skip_cases :
    (s : Bytes)
    → (skip s ≡ [])
      ⊎ ((c : ℕ) × (r : Bytes) × (skip s ≡ c ∷ r) × (delim c ≡ false) × (length r < length s))
unfolding skip
skip_cases [] = inl refl
skip_cases (c ∷ s) = elim (Bool-cases (delim c)) [
  | inl yes' ↦ rw yes' (longer (skip_cases s))
  | inr no' ↦ rw no' (inr (c, s, refl, no', omega arith))
]
  where
    longer :
        (skip s ≡ [])
          ⊎ ((d : ℕ) × (r : Bytes) × (skip s ≡ d ∷ r) × (delim d ≡ false) × (length r < length s))
        → (skip s ≡ [])
          ⊎ ((d : ℕ) × (r : Bytes) × (skip s ≡ d ∷ r)
              × (delim d ≡ false)
              × (length r < suc (length s)))
    longer (inl e) = inl e
    longer (inr (d, r, e, n, l)) = inr (d, r, e, n, omega arith)

length-span : (s : Bytes) → length (span s).1 ≤ length s
unfolding span
length-span [] = omega arith
length-span (c ∷ s) = ground (arith, length-span s)

-- The word at a byte that is no delimiter, and the words behind it.
words-span :
    (c : ℕ) (s : Bytes)
    → delim c ≡ false
    → words (c ∷ s) ≡ (span (c ∷ s)).0 ∷ words (span (c ∷ s)).1
unfolding words span
words-span c [] h = ground arith
words-span c (d ∷ s) h = elim (Bool-cases (delim d)) [
  | inl yes' ↦ rw (h, yes')
  | inr no' ↦ ground (arith, words-span d s no')
]

-- What one call of strtok does to the words of the line.
data Token (s : Bytes) : Type 0 where
  last : strtok s ≡ none → words s ≡ [] → Token s
  more :
      (t r : Bytes) → strtok s ≡ some (t, r) → words s ≡ t ∷ words r → length r < length s → Token s

strtok-Token : (s : Bytes) → Token s
unfolding strtok
strtok-Token s = go (skip_cases s)
  where
    go :
        (skip s ≡ [])
          ⊎ ((c : ℕ) × (r : Bytes) × (skip s ≡ c ∷ r) × (delim c ≡ false) × (length r < length s))
        → Token s
    go (inl e) = last (rw e) (sym (words-skip s) ∙ ap words e ∙ unfold words in refl)
    go (inr (c, r, e, n, l)) =
        more (span (c ∷ r)).0 (span (c ∷ r)).1 (rw e)
          (sym (words-skip s) ∙ ap words e ∙ words-span c r n) (ground (arith, length-span r))

installed :
    (ts : List Bytes) (t : Bytes)
    → (map str ts ++ str t ∷ []) ++ junk ∷ [] ≡ map str (ts ++ t ∷ []) ++ junk ∷ []
installed ts t = simp map-append

go_on :
    (ts : List Bytes) (t : Bytes) (ws : List Bytes) (f : ℕ → Option (List Slot)) (rest : List Slot)
    → f (length (ts ++ t ∷ [])) ≡ some (vector ((ts ++ t ∷ []) ++ ws) rest)
    → f (length ts + 1) ≡ some (vector (ts ++ t ∷ ws) rest)
go_on ts t ws f rest h = ap f (omega (arith, length-append ts (t ∷ []))) ∙ (simp append_assoc at h)

parse_loop-words :
    (fuel : ℕ) (s : Bytes) (ts : List Bytes)
    → length s < fuel
    → parse_loop fuel (map str ts ++ junk ∷ []) (length ts) (strtok s)
      ≡ some (vector (ts ++ words s) [])
unfolding parse_loop
parse_loop-words zero s ts h = absurd (omega arith)
parse_loop-words (suc fuel) s ts h = elim (strtok-Token s) [
  | last e w ↦ rw (e, w) (rw (store_here ts [] junk null, append-nil))
  | more t r e w l ↦
      rw (e, w)
        (rw (store_here ts [] junk (str t), installed ts t)
          (go_on ts t (words r)
            (λ n. parse_loop fuel (map str (ts ++ t ∷ []) ++ junk ∷ []) n (strtok r)) []
            (parse_loop-words fuel r (ts ++ t ∷ []) (omega arith))))
]

-- What `parse` answers to a line: NULL if there are no words, and else the vector of the words.
abbrev pub expected : List Bytes → Parsed
expected [] = nothing
expected (w ∷ ws) = argv (vector (w ∷ ws) [])

parse_more :
    (line t r : Bytes)
    → strtok line ≡ some (t, r)
    → parse (some line)
      ≡ (parse_loop (suc (suc (length line))) (junk ∷ []) 0 (strtok line) >>= λ a. some (argv a))
unfolding parse
parse_more line t r e = rw e

-- On every line parse comes to an end without a fault. It returns NULL exactly for a line with no
-- words, and else the NULL-terminated vector of the line's words in order, in an array with no
-- cell to spare.
pub parse-words : (line : Bytes) → parse (some line) ≡ some (expected (words line))
unfolding parse
parse-words line = elim (strtok-Token line) [
  | last e w ↦ rw (e, w)
  | more t r e w l ↦
      parse_more line t r e
      ∙ rw (parse_loop-words (suc (suc (length line))) line [] (omega arith)) (rw w)
]
