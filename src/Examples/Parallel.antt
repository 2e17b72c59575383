-- ===== src/Examples/Parallel.antt =====
-- examples/mod07-threads/parallel.c: an array is summed by as many threads as there are cores. The threads
-- share nothing that they write but `core`, which only chooses a core for them; so their sums do not
-- depend on the schedule. The sums are far below the bound of a long.
use native.Mathlib.Nat.{suc-mul, mul-div-le}
use mathlib.Core.Option.{some-injective}
use dcl140_2023_nov.Prelude.{
  ℕ, zero, suc, ◌+◌, ◌*◌, ◌/◌, ◌≤◌, ◌<◌, ◌≡◌, refl, ap, ◌∙◌, Option, none, some, List, [], ◌∷◌,
  length, get_elem?, get_elem?-some, arith, ◌==◌, if◌then◌else◌, ◌>>=◌, false,
}

-- `N`
abbrev pub array_size : ℕ
array_size = 400000000

-- `struct task_data`; the array is the same one for all.
pub record Task : Type 0 where
  pub start : ℕ
  pub size : ℕ

-- `for (i=0,k=td->start;i<size;sum+=td->array[k],++k,++i);`, where a read outside the array is a fault.
unfoldable pub sum_from : ℕ → List ℕ → ℕ → ℕ → Option ℕ
sum_from zero array k sum = some sum
sum_from (suc n) array k sum = get_elem? array k >>= λ x. sum_from n array (k + 1) (sum + x)

unfoldable pub get_sum : List ℕ → Task → Option ℕ
unfolding sum_from
get_sum array td = sum_from td.size array td.start 0

-- The loop that fills the tasks, for so many more cores.
unfoldable pub tasks : ℕ → ℕ → ℕ → List Task
tasks zero task_data_size start = []
tasks (suc n) task_data_size start =
    record { start = start; size = task_data_size }
    ∷ tasks n task_data_size (start + task_data_size)

-- The loop that joins the threads and adds their sums up.
unfoldable pub join_all : List ℕ → List Task → ℕ → Option ℕ
unfolding get_sum
join_all array [] sum = some sum
join_all array (td ∷ tds) sum =
    get_sum array td >>= λ partial_sum. join_all array tds (sum + partial_sum)

-- `main`, on an array; a division by no cores is a fault.
unfoldable pub parallel_sum : List ℕ → ℕ → Option ℕ
unfolding tasks join_all
parallel_sum array number_of_cores =
    if number_of_cores == 0
    then none
    else join_all array (tasks number_of_cores (length array / number_of_cores) 0) 0

-- `for (i=0;i<N;++i) array[i] = 1;`
unfoldable pub ones : ℕ → List ℕ
ones zero = []
ones (suc n) = 1 ∷ ones n

-- The sum of the first `k` elements.
unfoldable pub prefix : List ℕ → ℕ → ℕ
prefix [] k = 0
prefix (x ∷ xs) zero = 0
prefix (x ∷ xs) (suc k) = x + prefix xs k

prefix-zero : (xs : List ℕ) → prefix xs 0 ≡ 0
unfolding prefix
prefix-zero [] = refl
prefix-zero (x ∷ xs) = refl

prefix-suc : (xs : List ℕ) (k x : ℕ) → get_elem? xs k ≡ some x → prefix xs (k + 1) ≡ prefix xs k + x
unfolding prefix
prefix-suc [] k x h = cc
prefix-suc (y ∷ xs) zero x h = omega (arith, prefix-zero xs, some-injective _ _ h)
prefix-suc (y ∷ xs) (suc k) x h =
    let m : suc k + 1 ≡ suc (k + 1) = omega arith in
    ap (prefix (y ∷ xs)) m ∙ omega (arith, prefix-suc xs k x h)

sum_from-prefix :
    (n : ℕ) (xs : List ℕ) (k s : ℕ)
    → k + n ≤ length xs
    → (r : ℕ) × (sum_from n xs k s ≡ some r) × (r + prefix xs k ≡ s + prefix xs (k + n))
unfolding sum_from
sum_from-prefix zero xs k s h =
    let m : k ≡ k + 0 = omega arith in (s, refl, ap (λ z. s + prefix xs z) m)
sum_from-prefix (suc n) xs k s h =
    let (x, e) = get_elem?-some xs k (omega arith) in
    let (r, f, g) = sum_from-prefix n xs (k + 1) (s + x) (omega arith) in
    let p = prefix-suc xs k x e in
    let m : k + 1 + n ≡ k + suc n = omega arith in
    let q = ap (prefix xs) m in (r, rw e f, omega (arith, g, p, q))

join_all-prefix :
    (n : ℕ) (xs : List ℕ) (size k s : ℕ)
    → k + n * size ≤ length xs
    → (r : ℕ) × (join_all xs (tasks n size k) s ≡ some r)
      × (r + prefix xs k ≡ s + prefix xs (k + n * size))
unfolding join_all tasks get_sum
join_all-prefix zero xs size k s h =
    let m : k ≡ k + 0 * size = omega arith in (s, refl, ap (λ z. s + prefix xs z) m)
join_all-prefix (suc n) xs size k s h =
    let m = suc-mul n size in
    let (r, f, g) = sum_from-prefix size xs k 0 (omega (arith, h, m)) in
    let (t, a, b) = join_all-prefix n xs size (k + size) (s + r) (omega (arith, h, m)) in
    let i : k + size + n * size ≡ k + suc n * size = omega (arith, m) in
    let q = ap (prefix xs) i in (t, rw f a, omega (arith, g, b, q))

-- Whatever the array, with one core or more the threads read nothing outside it, and the sum that
-- is printed is that of its first cores * (length / cores) elements: the remainder is in no
-- thread's part.
pub parallel_sum-prefix :
    (array : List ℕ) (cores : ℕ)
    → 0 < cores
    → parallel_sum array cores ≡ some (prefix array (cores * (length array / cores)))
unfolding parallel_sum
parallel_sum-prefix array cores h =
    let z : (cores == 0) ≡ false = ground (arith, h) in
    let (r, e, f) =
      join_all-prefix cores array (length array / cores) 0 0
        (omega (arith, mul-div-le (length array) cores)) in
    let k = cores * (length array / cores) in
    let m : 0 + k ≡ k = omega arith in
    let q = ap (prefix array) m in rw z (e ∙ ap some (omega (arith, f, q, prefix-zero array)))

prefix-ones : (n k : ℕ) → k ≤ n → prefix (ones n) k ≡ k
unfolding prefix ones
prefix-ones zero zero h = refl
prefix-ones zero (suc k) h = absurd (omega arith)
prefix-ones (suc n) zero h = refl
prefix-ones (suc n) (suc k) h = omega (arith, prefix-ones n k (omega arith))

length-ones : (n : ℕ) → length (ones n) ≡ n
unfolding ones
length-ones zero = refl
length-ones (suc n) = omega (arith, length-ones n)

-- What the program prints for its array.
parallel_sum-ones :
    (n cores : ℕ) → 0 < cores → parallel_sum (ones n) cores ≡ some (cores * (n / cores))
parallel_sum-ones n cores h =
    let e = parallel_sum-prefix (ones n) cores h in
    e
    ∙ ap some (
        ap (λ m. prefix (ones n) (cores * (m / cores))) (length-ones n)
        ∙ prefix-ones n (cores * (n / cores)) (omega (arith, mul-div-le n cores)))
