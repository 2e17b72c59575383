-- ===== src/Shell/Builtin/Dispatch.antt =====
-- `is_builtin` and `do_builtin` together; the output of `echo`.
use std.Path.{subst}
use dcl140_2023_nov.Prelude.{
  ◌≢◌, All, str_eq_iff, sym, ◌≡◌, refl, Bool, true, false, Option, none, some, List, [], ◌∷◌, ◌++◌,
  Bytes, codes, str_eq, if◌then◌else◌, arith, Bool-cases, inl, inr, ◌>>=◌,
}
use dcl140_2023_nov.Shell.Argv.{Slot, fetch, vector}
use dcl140_2023_nov.Shell.Builtin.Defs.{
  Handler, inbuilts, Out, text, Env, Sh, Done, find_cmd, is_builtin, echo_loop, echo, run_handler,
  do_builtin,
}

abbrev pub is_some : Option Handler → Bool
is_some none = false
is_some (some h) = true

-- The handler of the first entry of a table with a keyword, if there is one.
pub data Selects (cmd : Bytes) : List (Bytes × Handler) → Option Handler → Type 0 where
  absent : (table : List (Bytes × Handler)) → All (λ e. e.0 ≢ cmd) table → Selects cmd table none
  first :
      (before : List (Bytes × Handler)) (h : Handler) (after : List (Bytes × Handler))
      → All (λ e. e.0 ≢ cmd) before
      → Selects cmd (before ++ (cmd, h) ∷ after) (some h)

str_eq-false : (a b : Bytes) → str_eq a b ≡ false → a ≢ b
str_eq-false a b h e =
    let q : str_eq a b ≡ true = (str_eq_iff a b).1 e in absurd (ground (arith, h, q))

Selects-cons :
    (cmd keyword : Bytes) (h : Handler) (table : List (Bytes × Handler)) (o : Option Handler)
    → keyword ≢ cmd
    → Selects cmd table o
    → Selects cmd ((keyword, h) ∷ table) o
Selects-cons cmd keyword h table none n (absent _ a) = absent ((keyword, h) ∷ table) (n, a)
Selects-cons cmd keyword h table (some g) n (first before _ after a) =
    first ((keyword, h) ∷ before) g after (n, a)

find_cmd-Selects :
    (table : List (Bytes × Handler)) (cmd : Bytes) → Selects cmd table (find_cmd table cmd)
unfolding find_cmd
find_cmd-Selects [] cmd = absent [] tt
find_cmd-Selects ((keyword, h) ∷ table) cmd = elim (Bool-cases (str_eq keyword cmd)) [
  | inl e ↦
      let q : keyword ≡ cmd = (str_eq_iff keyword cmd).0 e in
      rw e (subst (λ k. Selects cmd ((k, h) ∷ table) (some h)) (sym q) (first [] h table tt))
  | inr e ↦ rw e (
      Selects-cons cmd keyword h table (find_cmd table cmd) (str_eq-false keyword cmd e)
        (find_cmd-Selects table cmd))
]

-- With no keyword found, `this` is what it was.
abbrev pub handled : Env → List Slot → Sh → Option Handler → Option Done
handled v a s none = s.this >>= run_handler v a s
handled v a s (some h) = run_handler v a (record s { this = some h }) h

-- For every word the table has a first entry with that keyword, or no such entry. is_builtin
-- answers which, and the do_builtin behind it runs the handler of that entry, whatever was
-- selected before; with no such entry the selection is left as it was.
pub is_builtin-do_builtin :
    (v : Env) (a : List Slot) (s : Sh) (cmd : Bytes)
    → (o : Option Handler) × Selects cmd inbuilts o
      × ((is_builtin cmd s).0 ≡ is_some o)
      × (do_builtin v a (is_builtin cmd s).1 ≡ handled v a s o)
unfolding is_builtin do_builtin
is_builtin-do_builtin v a s cmd =
    (find_cmd inbuilts cmd, find_cmd-Selects inbuilts cmd, ground arith, ground arith)

-- Each word with a blank behind it.
unfoldable pub spaced : List Bytes → List Out
spaced [] = []
spaced (t ∷ ts) = text t ∷ text (codes " ") ∷ spaced ts

-- `echo` on its arguments: a first `-n` is no word, and keeps the newline away.
abbrev pub echo_spec : List Bytes → List Out
echo_spec [] = text (codes "\n") ∷ []
echo_spec (t ∷ ts) =
    if str_eq t (codes "-n") then spaced ts else spaced (t ∷ ts) ++ text (codes "\n") ∷ []

echo_loop-spaced :
    (ts : List Bytes) (rest : List Slot) → echo_loop (vector ts rest) ≡ some (spaced ts)
unfolding echo_loop spaced
echo_loop-spaced [] rest = refl
echo_loop-spaced (t ∷ ts) rest = rw (echo_loop-spaced ts rest)

-- On the array of any command with its arguments echo reads nothing behind NULL, and prints each
-- argument with a blank behind it and then a newline; if the first argument is -n, it and the
-- newline are left out.
pub echo-echo_spec :
    (c : Bytes) (ts : List Bytes) (rest : List Slot)
    → echo (vector (c ∷ ts) rest) ≡ some (echo_spec ts)
unfolding echo fetch spaced
echo-echo_spec c [] rest = rw (echo_loop-spaced [] rest)
echo-echo_spec c (t ∷ ts) rest = elim (Bool-cases (str_eq t (codes "-n"))) [
  | inl e ↦ rw e (echo_loop-spaced ts rest)
  | inr e ↦ rw e (rw (echo_loop-spaced (t ∷ ts) rest))
]
