-- ===== src/Examples/Environment.antt =====
-- examples/mod03-system.and.process.information/myunsetenv.c: a variable is taken out of `environ`, an
-- array of strings of the form name=value that ends in NULL.
use mathlib.Core.List.{append_assoc, map-append}
use mathlib.Core.Path.{subst}
use dcl140_2023_nov.Prelude.{
  ℕ, zero, suc, ◌+◌, ◌<◌, ◌≡◌, ◌≢◌, ◌⊎◌, inl, inr, ap, sym, ◌∙◌, Option, none, some, List, [], ◌∷◌,
  ◌++◌, map, length, length-append, length-map, arith, ◌==◌, Bool, Bool-cases, true, false,
  if◌then◌else◌, ◌>>=◌, All, Bytes,
}
use dcl140_2023_nov.Shell.Argv.{
  Slot, junk, null, str, vector, fetch, store, tokens, tokens-append, tokens-vector, fetch_null,
  fetch_str, fetch_next_null, fetch_next_str, store_here,
}

-- `strncmp(var, *env, len) == 0 && (*env)[len] == '='`, where `len` is the length of `var`.
unfoldable pub is_match : Bytes → Bytes → Bool
is_match [] [] = false
is_match [] (c ∷ env) = c == 0x3d
is_match (v ∷ var) [] = false
is_match (v ∷ var) (c ∷ env) = if v == c then is_match var env else false

-- `while (*env)`: the index of the first match, or of NULL; the array is read from its cell `i` on.
unfoldable pub find_match : Bytes → List Slot → ℕ → Option ℕ
unfolding is_match
find_match var [] i = none
find_match var (junk ∷ a) i = none
find_match var (null ∷ a) i = some i
find_match var (str env ∷ a) i = if is_match var env then some i else find_match var a (i + 1)

-- `while (*env) { *env = *(env + 1); env++; }`. A round makes the next one through `next`.
move_step : (List Slot → Option (List Slot)) → List Slot → ℕ → Slot → Option (List Slot)
move_step next a i junk = none
move_step next a i null = some a
move_step next a i (str env) = fetch a (i + 1) >>= λ s. store a i s >>= next

unfoldable pub move_up : ℕ → List Slot → ℕ → Option (List Slot)
unfolding move_step
move_up zero a i = none
move_up (suc fuel) a i =
    let next = λ (b : List Slot). move_up fuel b (i + 1) in fetch a i >>= move_step next a i

unfoldable pub myunsetenv : Bytes → List Slot → Option (List Slot)
unfolding find_match move_up
myunsetenv var environ = find_match var environ 0 >>= move_up (suc (length environ)) environ

-- An entry of the variable, and one of another.
abbrev pub entry : Bytes → Bytes → Bytes
entry var value = var ++ 0x3d ∷ value

abbrev pub IsOther : Bytes → Bytes → Type 0
IsOther var e = (value : Bytes) → e ≢ entry var value

-- What is left of the entries: without the first of the variable, if there is one.
pub data Unset (var : Bytes) : List Bytes → List Bytes → Type 0 where
  absent : (es : List Bytes) → All (IsOther var) es → Unset var es es
  removed :
      (pre : List Bytes) (value : Bytes) (post : List Bytes)
      → All (IsOther var) pre
      → Unset var (pre ++ entry var value ∷ post) (pre ++ post)

is_match-true : (var e : Bytes) → is_match var e ≡ true → (value : Bytes) × (e ≡ entry var value)
unfolding is_match
is_match-true [] [] h = cc
is_match-true [] (c ∷ e) h = let k : c ≡ 0x3d = ground (arith, h) in (e, ap (λ z. z ∷ e) k)
is_match-true (v ∷ var) [] h = cc
is_match-true (v ∷ var) (c ∷ e) h = elim (Bool-cases (v == c)) [
  | inl k ↦
      let (value, q) = is_match-true var e (rw k at h) in
      let m : c ≡ v = ground (arith, k) in (value, ap (λ z. z ∷ e) m ∙ ap (λ z. v ∷ z) q)
  | inr k ↦ absurd (ground (arith, h, k))
]

is_match-entry : (var value : Bytes) → is_match var (entry var value) ≡ true
unfolding is_match
is_match-entry [] value = ground arith
is_match-entry (v ∷ var) value = ground (arith, is_match-entry var value)

is_match-false : (var e : Bytes) → is_match var e ≡ false → IsOther var e
is_match-false var e h value k =
    let q : is_match var e ≡ true = ap (is_match var) k ∙ is_match-entry var value in
    absurd (ground (arith, h, q))

-- The entries from the first of the variable on.
pub split :
    (var : Bytes) (es : List Bytes) (i : ℕ) (rest : List Slot)
    → (All (IsOther var) es × (find_match var (vector es rest) i ≡ some (i + length es)))
      ⊎ ((pre : List Bytes) × (value : Bytes) × (post : List Bytes) × (es
            ≡ pre ++ entry var value ∷ post)
          × All (IsOther var) pre
          × (find_match var (vector es rest) i ≡ some (i + length pre)))
unfolding find_match
split var [] i rest = let m : i ≡ i + 0 = omega arith in inl (tt, ap some m)
split var (e ∷ es) i rest = elim (Bool-cases (is_match var e)) [
  | inl h ↦
      let (value, q) = is_match-true var e h in
      let m : i ≡ i + 0 = omega arith in
      inr ([], value, es, ap (λ z. z ∷ es) q, tt, rw h (ap some m))
  | inr h ↦ elim (split var es (i + 1) rest) [
    | inl (o, f) ↦
        let m : i + 1 + length es ≡ i + suc (length es) = omega arith in
        inl ((is_match-false var e h, o), rw h (f ∙ ap some m))
    | inr (pre, value, post, q, o, f) ↦
        let m : i + 1 + length pre ≡ i + suc (length pre) = omega arith in
        inr (
          e ∷ pre,
          value,
          post,
          ap (λ z. e ∷ z) q,
          (is_match-false var e h, o),
          rw h (f ∙ ap some m),
        )
  ]
]

-- One round of the loop that moves the entries up.
module _ (fuel : ℕ) (a : List Slot) (i : ℕ) where
  move_up_null : fetch a i ≡ some null → move_up (suc fuel) a i ≡ some a
  unfolding move_up
  move_up_null h = rw h

  move_up_str :
      (t : Bytes) (s : Slot) (b : List Slot)
      → fetch a i ≡ some (str t)
      → fetch a (i + 1) ≡ some s
      → store a i s ≡ some b
      → move_up (suc fuel) a i ≡ move_up fuel b (i + 1)
  unfolding move_up
  move_up_str t s b h k l = rw (h, k, l)

-- The entry that a round has copied joins the entries before it.
joined :
    (pre : List Bytes) (u : Bytes) (a : List Slot)
    → map str (pre ++ u ∷ []) ++ a ≡ map str pre ++ str u ∷ a
joined pre u a =
    ap (λ z. z ++ a) (map-append str pre (u ∷ [])) ∙ append_assoc (map str pre) (str u ∷ []) a

move_up_lem :
    (pre : List Bytes) (t : Bytes) (ts : List Bytes) (rest : List Slot) (fuel : ℕ)
    → length ts + 1 < fuel
    → move_up fuel (map str pre ++ str t ∷ vector ts rest) (length pre)
      ≡ some (map str pre ++ vector ts (null ∷ rest))
move_up_lem pre t ts rest zero h = absurd (omega arith)
move_up_lem pre t ts rest (suc zero) h = absurd (omega arith)
move_up_lem pre t [] rest (suc (suc fuel)) h =
    move_up_str (suc fuel) _ _ t null _ (fetch_str pre t (null ∷ rest))
      (fetch_next_null pre (str t) rest) (store_here pre (null ∷ rest) (str t) null)
    ∙ move_up_null fuel (map str pre ++ null ∷ null ∷ rest) (length pre + 1)
        (fetch_next_null pre null rest)
move_up_lem pre t (u ∷ ts) rest (suc (suc fuel)) h =
    let m : length pre + 1 ≡ length (pre ++ u ∷ []) = omega (arith, length-append pre (u ∷ [])) in
    move_up_str (suc fuel) _ _ t (str u) _ (fetch_str pre t (vector (u ∷ ts) rest))
      (fetch_next_str pre (str t) u (vector ts rest))
      (store_here pre (vector (u ∷ ts) rest) (str t) (str u))
    ∙ (λ i. move_up (suc fuel) (sym (joined pre u (str u ∷ vector ts rest)) i) (m i))
    ∙ move_up_lem (pre ++ u ∷ []) u ts rest (suc fuel) (omega (arith, h))
    ∙ ap some (joined pre u (vector ts (null ∷ rest)))

-- A vector of entries of which one is in the middle.
vector-append :
    (pre : List Bytes) (e : Bytes) (post : List Bytes) (rest : List Slot)
    → vector (pre ++ e ∷ post) rest ≡ map str pre ++ str e ∷ vector post rest
vector-append pre e post rest =
    ap (λ z. z ++ null ∷ rest) (map-append str pre (e ∷ post))
    ∙ append_assoc (map str pre) (str e ∷ map str post) (null ∷ rest)

length-vector : (es : List Bytes) (rest : List Slot) → length es < length (vector es rest)
length-vector es rest = omega (arith, length-append (map str es) (null ∷ rest), length-map es str)

myunsetenv-absent :
    (var : Bytes) (es : List Bytes) (rest : List Slot)
    → find_match var (vector es rest) 0 ≡ some (length es)
    → (myunsetenv var (vector es rest) >>= tokens) ≡ some es
unfolding myunsetenv
myunsetenv-absent var es rest h =
    rw (h, move_up_null (length (vector es rest)) (vector es rest) (length es) (fetch_null es rest))
      (tokens-vector es rest)

myunsetenv-removed :
    (var : Bytes) (pre : List Bytes) (e : Bytes) (post : List Bytes) (rest : List Slot)
    → find_match var (vector (pre ++ e ∷ post) rest) 0 ≡ some (length pre)
    → (myunsetenv var (vector (pre ++ e ∷ post) rest) >>= tokens) ≡ some (pre ++ post)
unfolding myunsetenv
myunsetenv-removed var pre e post rest h =
    let a = vector (pre ++ e ∷ post) rest in
    let m : length post + 1 < suc (length a) =
      omega (arith, length-vector (pre ++ e ∷ post) rest, length-append pre (e ∷ post)) in
    let k : move_up (suc (length a)) a (length pre)
        ≡ some (map str pre ++ vector post (null ∷ rest)) =
      ap (λ z. move_up (suc (length a)) z (length pre)) (vector-append pre e post rest)
      ∙ move_up_lem pre e post rest (suc (length a)) m in
    rw (h, k) (tokens-append pre post _ (tokens-vector post (null ∷ rest)))

-- On the array of any entries, whatever stands behind its NULL, myunsetenv faults nowhere, and
-- takes out the first entry of the variable, if there is one, and no other; the rest stay in
-- order.
pub myunsetenv-Unset :
    (var : Bytes) (es : List Bytes) (rest : List Slot)
    → (left : List Bytes) × Unset var es left
      × ((myunsetenv var (vector es rest) >>= tokens) ≡ some left)
myunsetenv-Unset var es rest = elim (split var es 0 rest) [
  | inl (o, f) ↦ (es, absent es o, myunsetenv-absent var es rest (f ∙ ap some (omega arith)))
  | inr (pre, value, post, q, o, f) ↦ (
    pre ++ post,
    subst (λ z. Unset var z (pre ++ post)) (sym q) (removed pre value post o),
    ap (λ z. myunsetenv var (vector z rest) >>= tokens) q
        ∙ myunsetenv-removed var pre (entry var value) post rest
            (ap (λ z. find_match var (vector z rest) 0) (sym q) ∙ f ∙ ap some (omega arith)),
  )
]
