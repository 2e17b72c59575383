-- ===== src/Shell/Argv/Scan.antt =====
-- What `scan` and `tokens` find in the vector of a list of tokens.
use mathlib.Core.Path.{subst}
use mathlib.Core.Option.{some-injective}
use dcl140_2023_nov.Prelude.{
  ℕ, ◌+◌, ◌≡◌, refl, ap, ◌∙◌, >>=-eq-some, false, some, List, [], ◌∷◌, ◌++◌, map, arith, length,
  length-map, get_elem?-append, All, Bytes, str_eq, str_eq_refl,
}
use dcl140_2023_nov.Shell.Argv.Defs.{Slot, junk, null, str, vector, fetch, tokens, scan}

-- No token of the list is the symbol.
abbrev pub Lacks : Bytes → List Bytes → Type 0
Lacks symbol = All (λ t. str_eq t symbol ≡ false)

pub tokens-vector : (ts : List Bytes) (rest : List Slot) → tokens (vector ts rest) ≡ some ts
unfolding tokens
tokens-vector [] rest = refl
tokens-vector (t ∷ ts) rest = ground (arith, tokens-vector ts rest)

-- A loop that does not meet its symbol goes on behind the tokens.
pub scan-append :
    (symbol : Bytes) (ts : List Bytes) (rest : List Slot) (i : ℕ)
    → Lacks symbol ts
    → scan symbol (map str ts ++ rest) i ≡ scan symbol rest (i + length ts)
unfolding scan
scan-append symbol [] rest i h = ap (scan symbol rest) (omega arith)
scan-append symbol (t ∷ ts) rest i h = ground (arith, scan-append symbol ts rest (i + 1))

pub scan_found :
    (symbol : Bytes) (ts : List Bytes) (rest : List Slot)
    → Lacks symbol ts
    → scan symbol (map str ts ++ str symbol ∷ rest) 0 ≡ some (length ts)
unfolding scan
scan_found symbol ts rest h =
    ground (arith, scan-append symbol ts (str symbol ∷ rest) 0, str_eq_refl symbol)

pub scan_absent :
    (symbol : Bytes) (ts : List Bytes) (rest : List Slot)
    → Lacks symbol ts
    → scan symbol (vector ts rest) 0 ≡ some (length ts)
unfolding scan
scan_absent symbol ts rest h = ground (arith, scan-append symbol ts (null ∷ rest) 0)

-- A read behind some tokens.
pub fetch_behind :
    (ts : List Bytes) (rest : List Slot) (i : ℕ)
    → fetch (map str ts ++ rest) (length ts + i) ≡ fetch rest i
unfolding fetch
fetch_behind ts rest i = rw (← length-map ts str) (rw get_elem?-append)

pub fetch_here :
    (ts : List Bytes) (rest : List Slot) → fetch (map str ts ++ rest) (length ts) ≡ fetch rest 0
fetch_here ts rest = ap (fetch (map str ts ++ rest)) (omega arith) ∙ fetch_behind ts rest 0

-- A vector that can be read has its tokens in front, then NULL.
pub tokens_inv :
    (a : List Slot) (ts : List Bytes)
    → tokens a ≡ some ts
    → (rest : List Slot) × (a ≡ vector ts rest)
unfolding tokens
tokens_inv [] ts h = cc
tokens_inv (junk ∷ a) ts h = cc
tokens_inv (null ∷ a) [] h = (a, refl)
tokens_inv (null ∷ a) (t ∷ ts) h = cc
tokens_inv (str t ∷ a) ts h =
    let (us, e, k) = >>=-eq-some (tokens a) (λ us. some (t ∷ us)) h in
    let (rest, q) = tokens_inv a us e in
    (rest, subst (λ z. str t ∷ a ≡ vector z rest) (some-injective _ _ k) (ap (λ b. str t ∷ b) q))

pub fetch_null :
    (ts : List Bytes) (rest : List Slot) → fetch (vector ts rest) (length ts) ≡ some null
unfolding fetch
fetch_null ts rest = fetch_here ts (null ∷ rest)

pub fetch_str :
    (ts : List Bytes) (t : Bytes) (rest : List Slot)
    → fetch (map str ts ++ str t ∷ rest) (length ts) ≡ some (str t)
unfolding fetch
fetch_str ts t rest = fetch_here ts (str t ∷ rest)

pub fetch_next_null :
    (ts : List Bytes) (s : Slot) (rest : List Slot)
    → fetch (map str ts ++ s ∷ null ∷ rest) (length ts + 1) ≡ some null
unfolding fetch
fetch_next_null ts s rest = fetch_behind ts (s ∷ null ∷ rest) 1

pub fetch_next_str :
    (ts : List Bytes) (s : Slot) (t : Bytes) (rest : List Slot)
    → fetch (map str ts ++ s ∷ str t ∷ rest) (length ts + 1) ≡ some (str t)
unfolding fetch
fetch_next_str ts s t rest = fetch_behind ts (s ∷ str t ∷ rest) 1
