-- ===== src/Shell/Run/Background.antt =====
-- What `is_background` answers and removes, on every vector.
use dcl140_2023_nov.Prelude.{
  ℕ, ◌+◌, ◌-◌, ◌≡◌, refl, ap, sym, ◌∙◌, Bool, true, false, Option, some, List, [], ◌∷◌, ◌++◌, map,
  length, length-append, ◌⊎◌, Bytes, arith, if◌then◌else◌, Bool-cases, inl, inr, ◌>>=◌,
}
use dcl140_2023_nov.Shell.Argv.{
  Slot, vector-append, null, str, vector, fetch, store, tokens, tokens-vector, tokens_inv,
  fetch_str, store_here,
}
use dcl140_2023_nov.Shell.Run.Defs.{end_of, starts_amp, is_background}

-- The tokens without a last one that begins with `&`, and whether there was one.
abbrev drop_amp : Bytes → Bool × List Bytes
drop_amp t = if starts_amp t then (true, []) else (false, t ∷ [])

unfoldable pub split_amp : List Bytes → Bool × List Bytes
split_amp [] = (false, [])
split_amp (t ∷ []) = drop_amp t
split_amp (t ∷ u ∷ ts) = ((split_amp (u ∷ ts)).0, t ∷ (split_amp (u ∷ ts)).1)

end_of-vector :
    (ts : List Bytes) (rest : List Slot) (i : ℕ) → end_of (vector ts rest) i ≡ some (i + length ts)
unfolding end_of
end_of-vector [] rest i = ap some (omega arith)
end_of-vector (t ∷ ts) rest i = end_of-vector ts rest (i + 1) ∙ ap some (omega arith)

-- With the last token at hand.
split_amp-last :
    (ts : List Bytes) (t : Bytes)
    → split_amp (ts ++ t ∷ []) ≡ (if starts_amp t then (true, ts) else (false, ts ++ t ∷ []))
unfolding split_amp
split_amp-last [] t = refl
split_amp-last (u ∷ []) t = ground arith
split_amp-last (u ∷ v ∷ ts) t =
    rw (split_amp-last (v ∷ ts) t)
      (elim (Bool-cases (starts_amp t)) [ inl e ↦ rw e | inr e ↦ rw e ])

snoc_cases : (ts : List Bytes) → (ts ≡ []) ⊎ ((us : List Bytes) × (t : Bytes) × (ts ≡ us ++ t ∷ []))
snoc_cases [] = inl refl
snoc_cases (t ∷ ts) = elim (snoc_cases ts) [
  | inl e ↦ inr ([], t, ap (λ z. t ∷ z) e)
  | inr (us, u, e) ↦ inr (t ∷ us, u, ap (λ z. t ∷ z) e)
]

-- The code, given what it reads and what the write of NULL would leave.
background_steps :
    (a b : List Slot) (s t : Bytes) (n : ℕ)
    → fetch a 0 ≡ some (str s)
    → end_of a 0 ≡ some n
    → fetch a (n - 1) ≡ some (str t)
    → store a (n - 1) null ≡ some b
    → is_background a ≡ some (if starts_amp t then (true, b) else (false, a))
unfolding is_background
background_steps a b s t n h0 he hl hs =
    rw (h0, he, hl) (elim (Bool-cases (starts_amp t)) [ inl e ↦ rw (e, hs) | inr e ↦ rw e ])

first_str :
    (ts : List Bytes) (t : Bytes) (rest : List Slot)
    → (s : Bytes) × (fetch (map str ts ++ str t ∷ rest) 0 ≡ some (str s))
unfolding fetch
first_str [] t rest = (t, refl)
first_str (s ∷ ts) t rest = (s, refl)

abbrev pub shown : Bool × List Slot → Option (Bool × List Bytes)
shown (b, a) = tokens a >>= λ ts. some (b, ts)

background_last :
    (ts : List Bytes) (t : Bytes) (rest : List Slot)
    → (is_background (map str ts ++ str t ∷ null ∷ rest) >>= shown)
      ≡ some (if starts_amp t then (true, ts) else (false, ts ++ t ∷ []))
background_last ts t rest =
    let a = map str ts ++ str t ∷ null ∷ rest in
    let (s, h0) = first_str ts t (null ∷ rest) in
    let back : length ts + 1 - 1 ≡ length ts = omega arith in
    let he : end_of a 0 ≡ some (length ts + 1) =
      ap (λ b. end_of b 0) (sym (vector-append ts (t ∷ []) rest))
      ∙ end_of-vector (ts ++ t ∷ []) rest 0
      ∙ ap some (omega (arith, length-append ts (t ∷ []))) in
    rw
      (background_steps a (vector ts (null ∷ rest)) s t (length ts + 1) h0 he
        (rw back (fetch_str ts t (null ∷ rest)))
        (rw back (store_here ts (null ∷ rest) (str t) null)))
      (elim (Bool-cases (starts_amp t)) [
        | inl e ↦ rw e (rw (tokens-vector ts (null ∷ rest)))
        | inr e ↦ rw e (
            rw (
              ap tokens (sym (vector-append ts (t ∷ []) rest)) ∙ tokens-vector (ts ++ t ∷ []) rest))
      ])

background_none : (rest : List Slot) → (is_background (null ∷ rest) >>= shown) ≡ some (split_amp [])
unfolding is_background fetch tokens split_amp
background_none rest = refl

-- On the array of any tokens is_background reads and writes inside the array, answers whether the
-- last token begins with &, and leaves the tokens without that one.
pub is_background-split_amp :
    (a : List Slot) (ts : List Bytes)
    → tokens a ≡ some ts
    → (is_background a >>= shown) ≡ some (split_amp ts)
is_background-split_amp a ts h =
    let (rest, q) = tokens_inv a ts h in
    elim (snoc_cases ts) [
      | inl e ↦
          ap (λ b. is_background b >>= shown) (q ∙ ap (λ z. vector z rest) e)
          ∙ background_none rest
          ∙ ap (λ z. some (split_amp z)) (sym e)
      | inr (us, t, e) ↦
          ap (λ b. is_background b >>= shown)
            (q ∙ ap (λ z. vector z rest) e ∙ vector-append us (t ∷ []) rest)
          ∙ background_last us t rest
          ∙ ap some (sym (ap split_amp e ∙ split_amp-last us t))
    ]
