-- ===== src/Examples/Tests.antt =====
-- Concrete runs of the examples.
use dcl140_2023_nov.Prelude.{ℕ, ◌≡◌, refl, some, List, [], ◌∷◌, arith, codes, ◌>>=◌, Bytes}
use dcl140_2023_nov.Shell.Argv.{vector, tokens, fetch, store}
use dcl140_2023_nov.Examples.Parallel.{parallel_sum, prefix, parallel_sum-prefix}
use dcl140_2023_nov.Examples.Environment.{myunsetenv, Unset, myunsetenv-Unset}

abbrev seven : List ℕ
seven = 1 ∷ 2 ∷ 3 ∷ 4 ∷ 5 ∷ 6 ∷ 7 ∷ []

-- Three threads of two numbers each: the last one is in no sum.
seven_sum : parallel_sum seven 3 ≡ some 21
unfolding parallel_sum
seven_sum = refl

parallel_sum-prefix_example : parallel_sum seven 3 ≡ some (prefix seven 6)
parallel_sum-prefix_example = parallel_sum-prefix seven 3 (omega arith)

abbrev environment : List Bytes
environment = codes "MYVAR2=b" ∷ codes "MYVAR=a" ∷ codes "HOME=/" ∷ []

environment_left :
    (myunsetenv (codes "MYVAR") (vector environment []) >>= tokens)
    ≡ some (codes "MYVAR2=b" ∷ codes "HOME=/" ∷ [])
unfolding myunsetenv tokens fetch store
environment_left = refl

myunsetenv-Unset_example :
    (left : List Bytes) × Unset (codes "MYVAR") environment left
    × ((myunsetenv (codes "MYVAR") (vector environment []) >>= tokens) ≡ some left)
myunsetenv-Unset_example = myunsetenv-Unset (codes "MYVAR") environment []
