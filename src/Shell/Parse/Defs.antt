-- ===== src/Shell/Parse/Defs.antt =====
-- shell/sh9/parse.c. `strtok` keeps its place in the line; here it hands back the rest of the line.
use dcl140_2023_nov.Prelude.{
  ℕ, zero, suc, ◌+◌, Bool, ◌||◌, Option, none, some, List, [], ◌∷◌, ◌++◌, length, Bytes, ◌==◌,
  if◌then◌else◌, ◌>>=◌,
}
use dcl140_2023_nov.Shell.Argv.{Slot, junk, null, str, store}

-- `static char delim[] = " \t\n"`
unfoldable pub delim : ℕ → Bool
delim c = c == 0x20 || (c == 0x09 || c == 0x0a)

-- The bytes behind the delimiters that the line begins with.
unfoldable pub skip : Bytes → Bytes
skip [] = []
skip (c ∷ s) = let rest = skip s in if delim c then rest else c ∷ s

-- The token that the line begins with, and what is behind the delimiter that ends it (strtok
-- overwrites that one byte with NUL).
unfoldable pub span : Bytes → Bytes × Bytes
span [] = ([], [])
span (c ∷ s) = if delim c then ([], s) else (c ∷ (span s).0, (span s).1)

found : Bytes → Option (Bytes × Bytes)
found [] = none
found (c ∷ s) = some (span (c ∷ s))

-- `strtok(line, delim)` and, on the rest, `strtok(NULL, delim)`.
unfoldable pub strtok : Bytes → Option (Bytes × Bytes)
unfolding skip span found delim
strtok s = found (skip s)

-- `realloc(newArgv, n * sizeof(char *))` where the block grows by one cell.
grow : List Slot → List Slot
grow a = a ++ junk ∷ []

-- The loop of `parse` on the token that was read: install it, read the next, resize; behind the
-- loop, cap the array off.
next_token :
    (List Slot → ℕ → Option (Bytes × Bytes) → Option (List Slot))
    → List Slot
    → ℕ
    → Option (Bytes × Bytes)
    → Option (List Slot)
unfolding grow
next_token again a count none = store a count null
next_token again a count (some (token, rest)) =
    store a count (str token) >>= λ b. again (grow b) (count + 1) (strtok rest)

unfoldable pub parse_loop : ℕ → List Slot → ℕ → Option (Bytes × Bytes) → Option (List Slot)
unfolding next_token strtok
parse_loop zero a count t = none
parse_loop (suc fuel) a count t = next_token (parse_loop fuel) a count t

-- What `parse` returns: NULL, or a vector.
pub data Parsed : Type 0 where
  nothing : Parsed
  argv : List Slot → Parsed

parse_tokens : ℕ → Option (Bytes × Bytes) → Option Parsed
unfolding parse_loop
parse_tokens fuel none = some nothing
parse_tokens fuel (some t) = parse_loop fuel (junk ∷ []) 0 (some t) >>= λ a. some (argv a)

-- `parse(line)`: `none` is a fault. No line has more tokens than bytes, which bounds the rounds.
unfoldable pub parse : Option Bytes → Option Parsed
unfolding parse_tokens
parse none = some nothing
parse (some line) = parse_tokens (suc (suc (length line))) (strtok line)

-- `free_argv(oldArgv)`: the strings that it frees, in order, ahead of the array itself.
unfoldable pub free_argv : List Slot → Option (List Bytes)
free_argv [] = none
free_argv (junk ∷ a) = none
free_argv (null ∷ a) = some []
free_argv (str t ∷ a) = free_argv a >>= λ ts. some (t ∷ ts)
