-- ===== src/Shell/Argv/Defs.antt =====
-- `argv` vectors, and the loops over them that the files of shell/sh9 share.
use dcl140_2023_nov.Prelude.{
  ℕ, zero, suc, ◌+◌, ◌-◌, Option, none, some, List, [], ◌∷◌, ◌++◌, map, ltb, length, get_elem?, set,
  Bytes, str_eq, if◌then◌else◌, ◌>>=◌,
}

-- One cell of the array: memory that `malloc` left as it was, NULL, or a string.
pub data Slot : Type 0 where
  junk null : Slot
  str : Bytes → Slot

-- The vector of some tokens, with what stands in the array behind its NULL.
abbrev pub vector : List Bytes → List Slot → List Slot
vector ts rest = map str ts ++ null ∷ rest

initialised : Slot → Option Slot
initialised junk = none
initialised s = some s

-- `argv[i]` read.
unfoldable pub fetch : List Slot → ℕ → Option Slot
unfolding initialised
fetch a i = get_elem? a i >>= initialised

-- `argv[i] = s`.
unfoldable pub store : List Slot → ℕ → Slot → Option (List Slot)
store a i s = if ltb i (length a) then some (set a i s) else none

-- The strings before NULL, as `execvp` reads them.
unfoldable pub tokens : List Slot → Option (List Bytes)
tokens [] = none
tokens (junk ∷ a) = none
tokens (null ∷ a) = some []
tokens (str t ∷ a) = tokens a >>= λ ts. some (t ∷ ts)

-- `for (i = 0; argv[i] != NULL; i++) if (!strcmp(argv[i], symbol)) break;`, and the value of `i`
-- behind it; the vector is read from its cell `i` on.
unfoldable pub scan : Bytes → List Slot → ℕ → Option ℕ
scan symbol [] i = none
scan symbol (junk ∷ a) i = none
scan symbol (null ∷ a) i = some i
scan symbol (str t ∷ a) i = if str_eq t symbol then some i else scan symbol a (i + 1)

-- `for (; argv[i] != NULL; i++) argv[i-2] = argv[i];` and `argv[i-2] = NULL;`. A round makes the
-- next one through `next`.
close_step : (List Slot → Option (List Slot)) → List Slot → ℕ → Slot → Option (List Slot)
close_step next a i junk = none
close_step next a i null = store a (i - 2) null
close_step next a i (str t) = store a (i - 2) (str t) >>= next

unfoldable pub close_up : ℕ → List Slot → ℕ → Option (List Slot)
unfolding close_step
close_up zero a i = none
close_up (suc fuel) a i =
    let next = λ (b : List Slot). close_up fuel b (i + 1) in fetch a i >>= close_step next a i
