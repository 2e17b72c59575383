-- ===== src/Shell/Pipe/Present.antt =====
-- What `pipe_present` returns, on every vector.
use dcl140_2023_nov.Prelude.{
  ℕ, suc, ◌+◌, ◌≡◌, ◌≢◌, refl, ap, sym, ◌∙◌, some, List, [], ◌∷◌, ◌++◌, map, length, Bytes, arith,
  ◌⊎◌, inl, inr,
}
use dcl140_2023_nov.Shell.Argv.{
  Slot, null, str, vector, fetch, scan, tokens, tokens_inv, before, from, before-from, Lacks,
  Lacks-before, from_head, vector-append, scan_absent, scan_found, fetch_null, fetch_str,
  fetch_next_null, fetch_next_str,
}
use dcl140_2023_nov.Shell.Pipe.Defs.{PipeIndex, minus_one, index, bar, pipe_present}

-- By the tokens before the first bar, and those from it on.
abbrev pub place : List Bytes → List Bytes → PipeIndex
place [] tail = minus_one
place (t ∷ ts) [] = index 0
place (t ∷ ts) (b ∷ []) = minus_one
place (t ∷ ts) (b ∷ u ∷ post) = index (suc (length ts))

module _ (a : List Slot) (i : ℕ) (found : scan bar a 0 ≡ some i) where
  present_zero : i ≡ 0 → pipe_present a ≡ some minus_one
  unfolding pipe_present
  present_zero z = rw (found, z)

  present_null : i ≢ 0 → fetch a i ≡ some null → pipe_present a ≡ some (index 0)
  unfolding pipe_present
  present_null z h = rw found (ground (arith, h))

  present_last :
      (s : Bytes)
      → i ≢ 0
      → fetch a i ≡ some (str s)
      → fetch a (i + 1) ≡ some null
      → pipe_present a ≡ some minus_one
  unfolding pipe_present
  present_last s z h k = rw found (ground (arith, h, k))

  present_inside :
      (s t : Bytes)
      → i ≢ 0
      → fetch a i ≡ some (str s)
      → fetch a (i + 1) ≡ some (str t)
      → pipe_present a ≡ some (index i)
  unfolding pipe_present
  present_inside s t z h k = rw found (ground (arith, h, k))

module _ (a : List Slot) (rest : List Slot) where
  placed_absent :
      (pre : List Bytes)
      → Lacks bar pre
      → a ≡ vector pre rest
      → pipe_present a ≡ some (place pre [])
  placed_absent [] lacks q =
      present_zero a 0 (ap (λ b. scan bar b 0) q ∙ scan_absent bar [] rest lacks) refl
  placed_absent (t ∷ ts) lacks q =
      present_null a (length (t ∷ ts))
        (ap (λ b. scan bar b 0) q ∙ scan_absent bar (t ∷ ts) rest lacks) (omega arith)
        (ap (λ b. fetch b (length (t ∷ ts))) q ∙ fetch_null (t ∷ ts) rest)

  placed_bar :
      (pre post : List Bytes)
      → Lacks bar pre
      → a ≡ map str pre ++ str bar ∷ vector post rest
      → pipe_present a ≡ some (place pre (bar ∷ post))
  placed_bar [] post lacks q =
      present_zero a 0 (ap (λ b. scan bar b 0) q ∙ scan_found bar [] (vector post rest) lacks) refl
  placed_bar (t ∷ ts) [] lacks q =
      present_last a (length (t ∷ ts))
        (ap (λ b. scan bar b 0) q ∙ scan_found bar (t ∷ ts) (null ∷ rest) lacks) bar (omega arith)
        (ap (λ b. fetch b (length (t ∷ ts))) q ∙ fetch_str (t ∷ ts) bar (null ∷ rest))
        (ap (λ b. fetch b (length (t ∷ ts) + 1)) q ∙ fetch_next_null (t ∷ ts) (str bar) rest)
  placed_bar (t ∷ ts) (u ∷ post) lacks q =
      present_inside a (length (t ∷ ts))
        (ap (λ b. scan bar b 0) q ∙ scan_found bar (t ∷ ts) (str u ∷ vector post rest) lacks) bar u
        (omega arith)
        (ap (λ b. fetch b (length (t ∷ ts))) q ∙ fetch_str (t ∷ ts) bar (str u ∷ vector post rest))
        (ap (λ b. fetch b (length (t ∷ ts) + 1)) q
          ∙ fetch_next_str (t ∷ ts) (str bar) u (vector post rest))

-- The array, split at the first symbol of its tokens.
pub split_tokens :
    (s : Bytes) (a : List Slot) (ts tail : List Bytes)
    → tokens a ≡ some ts
    → from s ts ≡ tail
    → (rest : List Slot) × (a ≡ map str (before s ts) ++ vector tail rest)
split_tokens s a ts tail h e =
    let (rest, q) = tokens_inv a ts h in
    (
      rest,
      q
          ∙ ap (λ z. vector z rest) (sym (before-from s ts))
          ∙ vector-append (before s ts) (from s ts) rest
          ∙ ap (λ z. map str (before s ts) ++ vector z rest) e,
    )

place_cases :
    (a : List Slot) (ts tail : List Bytes)
    → tokens a ≡ some ts
    → (tail ≡ []) ⊎ ((post : List Bytes) × (tail ≡ bar ∷ post))
    → from bar ts ≡ tail
    → pipe_present a ≡ some (place (before bar ts) tail)
place_cases a ts tail h (inl z) e =
    let (rest, q) = split_tokens bar a ts [] h (e ∙ z) in
    rw z (placed_absent a rest (before bar ts) (Lacks-before bar ts) q)
place_cases a ts tail h (inr (post, z)) e =
    let (rest, q) = split_tokens bar a ts (bar ∷ post) h (e ∙ z) in
    rw z (placed_bar a rest (before bar ts) post (Lacks-before bar ts) q)

-- On the array of a list of tokens pipe_present reads nothing outside it or unwritten, and returns
-- -1 if the list is empty or begins with a bar or its first bar is its last token, 0 if it has no
-- bar, and else the number of tokens before its first bar.
pub pipe_present-place :
    (a : List Slot) (ts : List Bytes)
    → tokens a ≡ some ts
    → pipe_present a ≡ some (place (before bar ts) (from bar ts))
pipe_present-place a ts h = place_cases a ts (from bar ts) h (from_head bar ts) refl
