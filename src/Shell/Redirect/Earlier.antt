-- ===== src/Shell/Redirect/Earlier.antt =====
-- shell/sh6/redirect_in.c and redirect_out.c, which close the vector up in another way.
use std.Path.{subst}
use mathlib.Core.List.{append_assoc}
use dcl140_2023_nov.Prelude.{
  ℕ, zero, suc, ◌+◌, ◌-◌, ◌<◌, ◌≡◌, refl, Option, none, some, List, [], ◌∷◌, ◌++◌, length,
  length-append, length-map, get_elem?-append, Bytes, codes, ◌>>=◌, arith, map, ap, sym, ◌∙◌,
}
use dcl140_2023_nov.Shell.Argv.{
  Lacks, vector-append, tokens_inv, scan_found, fetch_str, fetch_next_str, store-append,
  tokens-append, Slot, junk, null, str, fetch, store, scan, tokens, vector,
}
use dcl140_2023_nov.Shell.Process.{view_of, file, perror, Os, Proc, say}
use dcl140_2023_nov.Shell.Redirect.Defs.{
  Ret, ok, failed, Direction, input, output, symbol, open_file, dup,
}
use dcl140_2023_nov.Shell.Redirect.Refines.{view, redirected, room}

-- `for (; argv[i] != NULL; i++) argv[i-1] = argv[i];` and `argv[i-2] = NULL;`
close_step_sh6 : (List Slot → Option (List Slot)) → List Slot → ℕ → Slot → Option (List Slot)
close_step_sh6 next a i junk = none
close_step_sh6 next a i null = store a (i - 2) null
close_step_sh6 next a i (str t) = store a (i - 1) (str t) >>= next

unfoldable pub close_up_sh6 : ℕ → List Slot → ℕ → Option (List Slot)
unfolding close_step_sh6
close_up_sh6 zero a i = none
close_up_sh6 (suc fuel) a i =
    let next = λ (b : List Slot). close_up_sh6 fuel b (i + 1) in
    fetch a i >>= close_step_sh6 next a i

opened_sh6 : Direction → Proc → ℕ → Bytes → Option ℕ → Option (Ret × Proc)
opened_sh6 d p i f (some e) =
    some (failed, say (perror (codes "redirecting") e) (record p { errno = e }))
opened_sh6 d p i f none = close_up_sh6 (suc (length p.argv)) p.argv (i + 2) >>= λ a.
    some (ok, dup d (file f) (record p { argv = a }))

-- A symbol without a file: errno stays as it was.
file_at_sh6 : Os → Direction → Proc → ℕ → Slot → Option (Ret × Proc)
unfolding opened_sh6
file_at_sh6 os d p i junk = none
file_at_sh6 os d p i null = some (failed, p)
file_at_sh6 os d p i (str f) = opened_sh6 d p i f (open_file os d f)

symbol_at_sh6 : Os → Direction → Proc → ℕ → Slot → Option (Ret × Proc)
unfolding file_at_sh6
symbol_at_sh6 os d p i junk = none
symbol_at_sh6 os d p i null = some (ok, p)
symbol_at_sh6 os d p i (str s) = fetch p.argv (i + 1) >>= file_at_sh6 os d p i

unfoldable pub redirect_sh6 : Os → Direction → Proc → Option (Ret × Proc)
unfolding symbol_at_sh6
redirect_sh6 os d p = scan (symbol d) p.argv 0 >>= λ i. fetch p.argv i >>= symbol_at_sh6 os d p i

-- What the loop leaves of two cells and the tokens behind them.
closed_sh6 : Slot → Slot → List Bytes → List Slot → List Slot
closed_sh6 s0 s1 [] rest = null ∷ s1 ∷ null ∷ rest
closed_sh6 s0 s1 (t ∷ ts) rest = s0 ∷ closed_sh6 (str t) (str t) ts rest

abbrev pub all_but_last : Bytes → List Bytes → List Bytes
all_but_last s [] = []
all_but_last s (t ∷ ts) = s ∷ all_but_last t ts

tokens-closed_sh6 :
    (s : Bytes) (s1 : Slot) (ts : List Bytes) (rest : List Slot)
    → tokens (closed_sh6 (str s) s1 ts rest) ≡ some (all_but_last s ts)
unfolding tokens closed_sh6
tokens-closed_sh6 s s1 [] rest = refl
tokens-closed_sh6 s s1 (t ∷ ts) rest = rw (tokens-closed_sh6 t (str t) ts rest)

-- One round of the loop.
module _ (xs : List Slot) (s0 s1 : Slot) (fuel : ℕ) where
  round_null :
      (rest : List Slot)
      → close_up_sh6 (suc fuel) (xs ++ s0 ∷ s1 ∷ null ∷ rest) (length xs + 2)
        ≡ some (xs ++ null ∷ s1 ∷ null ∷ rest)
  unfolding close_up_sh6 fetch
  round_null rest = rw get_elem?-append (
      ap (λ i. store (xs ++ s0 ∷ s1 ∷ null ∷ rest) i null) (omega arith)
      ∙ store-append xs (s1 ∷ null ∷ rest) s0 null)

  store_second :
      (r : List Slot) (v : Slot)
      → store (xs ++ s0 ∷ s1 ∷ r) (length xs + 2 - 1) v ≡ some ((xs ++ s0 ∷ []) ++ v ∷ r)
  store_second r v =
      let e : length xs + 2 - 1 ≡ length (xs ++ s0 ∷ []) =
        omega (arith, length-append xs (s0 ∷ [])) in
      (λ i. store (sym (append_assoc xs (s0 ∷ []) (s1 ∷ r)) i) (e i) v)
      ∙ store-append (xs ++ s0 ∷ []) r s1 v

  round_str :
      (t : Bytes) (rest : List Slot)
      → close_up_sh6 (suc fuel) (xs ++ s0 ∷ s1 ∷ str t ∷ rest) (length xs + 2)
        ≡ close_up_sh6 fuel ((xs ++ s0 ∷ []) ++ str t ∷ str t ∷ rest) (length (xs ++ s0 ∷ []) + 2)
  unfolding close_up_sh6 fetch
  round_str t rest = rw get_elem?-append (
      rw (store_second (str t ∷ rest) (str t)) (
        ap (close_up_sh6 fuel ((xs ++ s0 ∷ []) ++ str t ∷ str t ∷ rest))
          (omega (arith, length-append xs (s0 ∷ [])))))

close_up_sh6_lem :
    (xs : List Slot) (s0 s1 : Slot) (ts : List Bytes) (rest : List Slot) (fuel : ℕ)
    → length ts < fuel
    → close_up_sh6 fuel (xs ++ s0 ∷ s1 ∷ vector ts rest) (length xs + 2)
      ≡ some (xs ++ closed_sh6 s0 s1 ts rest)
unfolding closed_sh6
close_up_sh6_lem xs s0 s1 ts rest zero h = absurd (omega arith)
close_up_sh6_lem xs s0 s1 [] rest (suc fuel) h = round_null xs s0 s1 fuel rest
close_up_sh6_lem xs s0 s1 (t ∷ ts) rest (suc fuel) h =
    round_str xs s0 s1 fuel t (vector ts rest)
    ∙ close_up_sh6_lem (xs ++ s0 ∷ []) (str t) (str t) ts rest fuel (omega arith)
    ∙ ap some (append_assoc xs (s0 ∷ []) (closed_sh6 (str t) (str t) ts rest))

close_up_sh6-tokens :
    (pre : List Bytes) (s : Bytes) (s1 : Slot) (ts : List Bytes) (rest : List Slot) (fuel : ℕ)
    → length ts < fuel
    → (close_up_sh6 fuel (map str pre ++ str s ∷ s1 ∷ vector ts rest) (length pre + 2) >>= tokens)
      ≡ some (pre ++ all_but_last s ts)
close_up_sh6-tokens pre s s1 ts rest fuel h =
    rw (← length-map pre str, close_up_sh6_lem (map str pre) (str s) s1 ts rest fuel h)
      (tokens-append pre (all_but_last s ts) _ (tokens-closed_sh6 s s1 ts rest))

-- The way through `redirect_sh6` with a symbol and a file.
module _ (os : Os) (d : Direction) (p : Proc) (i : ℕ) (f : Bytes) where
  redirect_sh6-file :
      scan (symbol d) p.argv 0 ≡ some i
      → fetch p.argv i ≡ some (str (symbol d))
      → fetch p.argv (i + 1) ≡ some (str f)
      → open_file os d f ≡ none
      → redirect_sh6 os d p ≡ (
          close_up_sh6 (suc (length p.argv)) p.argv (i + 2) >>= λ a.
          some (ok, dup d (file f) (record p { argv = a })))
  unfolding redirect_sh6
  redirect_sh6-file g h k o = rw (g, h) (rw k (rw o refl))

closed_view_sh6 :
    (d : Direction) (f : Bytes) (p : Proc) (ts kept : List Bytes) (o : Option (List Slot))
    → (o >>= tokens) ≡ some kept
    → ((o >>= λ a. some (ok, dup d (file f) (record p { argv = a }))) >>= view)
      ≡ some (ok, redirected d f (record (view_of p ts) { args = kept }))
closed_view_sh6 d f p ts kept none h = cc
closed_view_sh6 input f p ts kept (some a) h = rw h
closed_view_sh6 output f p ts kept (some a) h = rw h

-- On the array of some tokens without the symbol, the symbol, a file that opens and any other
-- tokens, the redirections of sh6 keep the symbol and drop the last of the others, if there is
-- one: only with nothing behind the file do they leave the command.
pub redirect_sh6-all_but_last :
    (os : Os) (d : Direction) (p : Proc) (pre post : List Bytes) (f : Bytes)
    → Lacks (symbol d) pre
    → tokens p.argv ≡ some (pre ++ symbol d ∷ f ∷ post)
    → open_file os d f ≡ none
    → (redirect_sh6 os d p >>= view)
      ≡ some (
        ok,
        redirected d f (record (view_of p (pre ++ symbol d ∷ f ∷ post)) {
          args = pre ++ all_but_last (symbol d) post;
        }),
      )
redirect_sh6-all_but_last os d p pre post f lacks h o =
    let (rest, q) = tokens_inv p.argv (pre ++ symbol d ∷ f ∷ post) h in
    let e = q ∙ vector-append pre (symbol d ∷ f ∷ post) rest in
    let k = close_up_sh6-tokens pre (symbol d) (str f) post rest (suc (length p.argv)) (
      subst (λ a. length post < suc (length a)) (sym e)
        (room pre (str (symbol d)) (str f) post rest)) in
    ap (λ z. z >>= view)
      (redirect_sh6-file os d p (length pre) f
        (ap (λ a. scan (symbol d) a 0) e
          ∙ scan_found (symbol d) pre (str f ∷ vector post rest) lacks)
        (ap (λ a. fetch a (length pre)) e ∙ fetch_str pre (symbol d) (str f ∷ vector post rest))
        (ap (λ a. fetch a (length pre + 1)) e
          ∙ fetch_next_str pre (str (symbol d)) f (vector post rest))
        o)
    ∙ closed_view_sh6 d f p (pre ++ symbol d ∷ f ∷ post) (pre ++ all_but_last (symbol d) post) _
        (ap (λ a. close_up_sh6 (suc (length p.argv)) a (length pre + 2) >>= tokens) e ∙ k)
