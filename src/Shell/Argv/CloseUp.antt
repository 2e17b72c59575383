-- ===== src/Shell/Argv/CloseUp.antt =====
-- The loop that closes a vector up removes two cells.
use mathlib.Core.List.{append_assoc}
use dcl140_2023_nov.Prelude.{
  ℕ, zero, suc, ◌+◌, ◌-◌, ◌<◌, ◌≡◌, refl, ap, ◌∙◌, map, length-append, length-map, some, List, [],
  ◌∷◌, ◌++◌, arith, length, Bytes, set, get_elem?-append, ◌>>=◌,
}
use dcl140_2023_nov.Shell.Argv.Defs.{Slot, null, str, vector, tokens, close_up, fetch, store}

-- What two removed cells and the tokens behind them leave in the array.
pub closed : Slot → Slot → List Bytes → List Slot → List Slot
closed s0 s1 [] rest = null ∷ s1 ∷ null ∷ rest
closed s0 s1 (t ∷ ts) rest = str t ∷ closed s1 (str t) ts rest

set-append {ℓ} :
    {A : Type ℓ} (xs ys : List A) (s v : A) → set (xs ++ s ∷ ys) (length xs) v ≡ xs ++ v ∷ ys
set-append [] ys s v = refl
set-append (x ∷ xs) ys s v = ap (λ t. x ∷ t) (set-append xs ys s v)

pub store-append :
    (xs ys : List Slot) (s v : Slot) → store (xs ++ s ∷ ys) (length xs) v ≡ some (xs ++ v ∷ ys)
unfolding store
store-append xs ys s v = ground (arith, length-append xs (s ∷ ys), set-append xs ys s v)

pub store_here :
    (ts : List Bytes) (rest : List Slot) (s v : Slot)
    → store (map str ts ++ s ∷ rest) (length ts) v ≡ some (map str ts ++ v ∷ rest)
store_here ts rest s v = rw (← length-map ts str) (store-append (map str ts) rest s v)

-- One round of the loop.
module _ (fuel : ℕ) (a : List Slot) (i : ℕ) where
  close_up_null : fetch a i ≡ some null → close_up (suc fuel) a i ≡ store a (i - 2) null
  unfolding close_up
  close_up_null h = rw h

  close_up_str :
      (t : Bytes) (b : List Slot)
      → fetch a i ≡ some (str t)
      → store a (i - 2) (str t) ≡ some b
      → close_up (suc fuel) a i ≡ close_up fuel b (i + 1)
  unfolding close_up
  close_up_str t b h k = rw (h, k)

module _ (xs : List Slot) (s0 s1 : Slot) where
  fetch_third :
      (s : Slot) (r : List Slot) → fetch (xs ++ s0 ∷ s1 ∷ s ∷ r) (length xs + 2) ≡ fetch (s ∷ r) 0
  unfolding fetch
  fetch_third s r = rw get_elem?-append

  store_first :
      (r : List Slot) (v : Slot)
      → store (xs ++ s0 ∷ s1 ∷ r) (length xs + 2 - 2) v ≡ some (xs ++ v ∷ s1 ∷ r)
  store_first r v =
      ap (λ i. store (xs ++ s0 ∷ s1 ∷ r) i v) (omega arith) ∙ store-append xs (s1 ∷ r) s0 v

-- The cell that a round has written joins the cells before it.
move_on :
    (xs : List Slot) (fuel : ℕ) (x : Slot) (r q : List Slot)
    → close_up fuel ((xs ++ x ∷ []) ++ r) (length (xs ++ x ∷ []) + 2) ≡ some ((xs ++ x ∷ []) ++ q)
    → close_up fuel (xs ++ x ∷ r) (length xs + 2 + 1) ≡ some (xs ++ x ∷ q)
move_on xs fuel x r q h =
    ap (close_up fuel (xs ++ x ∷ r)) (omega (arith, length-append xs (x ∷ [])))
    ∙ (simp append_assoc at h)

pub close_up_lem :
    (xs : List Slot) (s0 s1 : Slot) (ts : List Bytes) (rest : List Slot) (fuel : ℕ)
    → length ts < fuel
    → close_up fuel (xs ++ s0 ∷ s1 ∷ vector ts rest) (length xs + 2)
      ≡ some (xs ++ closed s0 s1 ts rest)
close_up_lem xs s0 s1 ts rest zero h = absurd (omega arith)
close_up_lem xs s0 s1 [] rest (suc fuel) h =
    close_up_null fuel _ _ (fetch_third xs s0 s1 null rest ∙ unfold fetch in refl)
    ∙ store_first xs s0 s1 (null ∷ rest) null
    ∙ unfold closed in refl
close_up_lem xs s0 s1 (t ∷ ts) rest (suc fuel) h =
    close_up_str fuel _ _ t _ (fetch_third xs s0 s1 (str t) (vector ts rest) ∙ unfold fetch in refl)
      (store_first xs s0 s1 (str t ∷ vector ts rest) (str t))
    ∙ move_on xs fuel (str t) _ _
        (close_up_lem (xs ++ str t ∷ []) s1 (str t) ts rest fuel (omega arith))
    ∙ unfold closed in refl

tokens-closed :
    (s0 s1 : Slot) (ts : List Bytes) (rest : List Slot) → tokens (closed s0 s1 ts rest) ≡ some ts
unfolding tokens closed
tokens-closed s0 s1 [] rest = refl
tokens-closed s0 s1 (t ∷ ts) rest = rw (tokens-closed s1 (str t) ts rest)

pub tokens-append :
    (pre ts : List Bytes) (a : List Slot)
    → tokens a ≡ some ts
    → tokens (map str pre ++ a) ≡ some (pre ++ ts)
unfolding tokens
tokens-append [] ts a h = h
tokens-append (p ∷ pre) ts a h = rw (tokens-append pre ts a h)

-- With some tokens in front of two cells and others behind them, and more rounds than these
-- others, the loop of the redirections that closes the vector up leaves the vector of the first
-- and then the others.
pub close_up-tokens :
    (pre : List Bytes) (s0 s1 : Slot) (ts : List Bytes) (rest : List Slot) (fuel : ℕ)
    → length ts < fuel
    → (close_up fuel (map str pre ++ s0 ∷ s1 ∷ vector ts rest) (length pre + 2) >>= tokens)
      ≡ some (pre ++ ts)
close_up-tokens pre s0 s1 ts rest fuel h =
    rw (← length-map pre str, close_up_lem (map str pre) s0 s1 ts rest fuel h)
      (tokens-append pre ts _ (tokens-closed s0 s1 ts rest))
