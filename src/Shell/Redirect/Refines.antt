-- ===== src/Shell/Redirect/Refines.antt =====
-- The redirections on arrays meet their description on lists of tokens.
use dcl140_2023_nov.Prelude.{
  ℕ, suc, ◌+◌, ◌≡◌, refl, Option, none, some, List, [], ◌∷◌, ◌++◌, length, length-append,
  length-map, ◌<◌, Bytes, ◌>>=◌, arith, ◌⊎◌, inl, inr, map, ap, sym, >>=-eq-some, ◌∙◌,
}
use dcl140_2023_nov.Shell.Argv.{
  Lacks, before, from, before-from, Lacks-before, from_head, vector-append, tokens_inv, scan_absent,
  scan_found, fetch_null, fetch_str, fetch_next_null, fetch_next_str, close_up-tokens, Slot, null,
  str, fetch, scan, tokens, vector, close_up,
}
use dcl140_2023_nov.Shell.Process.{View, view_of, file, perror, Os, Proc, einval}
use dcl140_2023_nov.Shell.Redirect.Defs.{
  Ret, ok, failed, Direction, input, output, symbol, open_file, dup, opened, redirect,
}

abbrev pub view : Ret × Proc → Option (Ret × View)
view (r, p) = tokens p.argv >>= λ ts. some (r, view_of p ts)

abbrev pub redirected : Direction → Bytes → View → View
redirected input f v = record v { stdin = file f }
redirected output f v = record v { stdout = file f }

abbrev answer : Direction → Bytes → View → List Bytes → Option ℕ → Ret × View
answer d f v rest (some e) = (failed, record v { errno = e; err = v.err ++ perror f e ∷ [] })
answer d f v rest none = (ok, redirected d f (record v { args = rest }))

-- By what stands from the first symbol on: nothing, the symbol alone, or the symbol and a file.
abbrev pub redirect_tail : Os → Direction → View → List Bytes → Ret × View
redirect_tail os d v [] = (ok, v)
redirect_tail os d v (s ∷ []) = (failed, record v { errno = einval })
redirect_tail os d v (s ∷ f ∷ post) =
    answer d f v (before (symbol d) v.args ++ post) (open_file os d f)

pub redirect_spec : Os → Direction → View → Ret × View
redirect_spec os d v = redirect_tail os d v (from (symbol d) v.args)

-- The four ways through `redirect`, by what it reads.
module _ (os : Os) (d : Direction) (p : Proc) (i : ℕ)
    (found : scan (symbol d) p.argv 0 ≡ some i) where
  redirect_at_null : fetch p.argv i ≡ some null → redirect os d p ≡ some (ok, p)
  unfolding redirect
  redirect_at_null h = rw (found, h)

  redirect_at_end :
      (s : Bytes)
      → fetch p.argv i ≡ some (str s)
      → fetch p.argv (i + 1) ≡ some null
      → redirect os d p ≡ some (failed, record p { errno = einval })
  unfolding redirect
  redirect_at_end s h k = rw (found, h, k)

  redirect_at_file :
      (s f : Bytes)
      → fetch p.argv i ≡ some (str s)
      → fetch p.argv (i + 1) ≡ some (str f)
      → redirect os d p ≡ opened d p i f (open_file os d f)
  unfolding redirect
  redirect_at_file s f h k = rw (found, h, k)

-- What `opened` shows, given what closing the vector up leaves.
opened-view :
    (d : Direction) (p : Proc) (i : ℕ) (f : Bytes) (ts kept : List Bytes) (o : Option ℕ)
    → tokens p.argv ≡ some ts
    → (close_up (suc (length p.argv)) p.argv (i + 2) >>= tokens) ≡ some kept
    → (opened d p i f o >>= view) ≡ some (answer d f (view_of p ts) kept o)
unfolding opened
opened-view d p i f ts kept (some e) h k = rw h
opened-view d p i f ts kept none h k =
    let (a, e, t) = >>=-eq-some (close_up (suc (length p.argv)) p.argv (i + 2)) tokens k in
    rw e (closed_view a d t)
  where
    closed_view :
        (a : List Slot) (d : Direction)
        → tokens a ≡ some kept
        → view (ok, dup d (file f) (record p { argv = a }))
          ≡ some (ok, redirected d f (record (view_of p ts) { args = kept }))
    closed_view a input t = rw t
    closed_view a output t = rw t

-- The three vectors that `redirect` tells apart.
module _ (os : Os) (d : Direction) (pre : List Bytes) (lacks : Lacks (symbol d) pre)
    (rest : List Slot) where
  redirect_absent : (p : Proc) → p.argv ≡ vector pre rest → redirect os d p ≡ some (ok, p)
  redirect_absent p h =
      redirect_at_null os d p (length pre)
        (ap (λ a. scan (symbol d) a 0) h ∙ scan_absent (symbol d) pre rest lacks)
        (ap (λ a. fetch a (length pre)) h ∙ fetch_null pre rest)

  redirect_no_file :
      (p : Proc)
      → p.argv ≡ map str pre ++ str (symbol d) ∷ null ∷ rest
      → redirect os d p ≡ some (failed, record p { errno = einval })
  redirect_no_file p h =
      redirect_at_end os d p (length pre)
        (ap (λ a. scan (symbol d) a 0) h ∙ scan_found (symbol d) pre (null ∷ rest) lacks) (symbol d)
        (ap (λ a. fetch a (length pre)) h ∙ fetch_str pre (symbol d) (null ∷ rest))
        (ap (λ a. fetch a (length pre + 1)) h ∙ fetch_next_null pre (str (symbol d)) rest)

  redirect_file :
      (p : Proc) (f : Bytes) (post : List Bytes)
      → p.argv ≡ map str pre ++ str (symbol d) ∷ str f ∷ vector post rest
      → redirect os d p ≡ opened d p (length pre) f (open_file os d f)
  redirect_file p f post h =
      redirect_at_file os d p (length pre)
        (ap (λ a. scan (symbol d) a 0) h
          ∙ scan_found (symbol d) pre (str f ∷ vector post rest) lacks)
        (symbol d) f
        (ap (λ a. fetch a (length pre)) h ∙ fetch_str pre (symbol d) (str f ∷ vector post rest))
        (ap (λ a. fetch a (length pre + 1)) h
          ∙ fetch_next_str pre (str (symbol d)) f (vector post rest))

-- The rounds that the closing loop is given are enough.
pub room :
    (pre : List Bytes) (s0 s1 : Slot) (post : List Bytes) (rest : List Slot)
    → length post < suc (length (map str pre ++ s0 ∷ s1 ∷ vector post rest))
room pre s0 s1 post rest = omega (
  arith,
  length-append (map str pre) (s0 ∷ s1 ∷ vector post rest),
  length-append (map str post) (null ∷ rest),
  length-map post str,
)

module _ (os : Os) (d : Direction) (p : Proc) (ts : List Bytes) (h : tokens p.argv ≡ some ts) where
  -- The array of the process, split at the first symbol.
  split_at :
      (tail : List Bytes)
      → from (symbol d) ts ≡ tail
      → (rest : List Slot) × (p.argv ≡ map str (before (symbol d) ts) ++ vector tail rest)
  split_at tail e =
      let (rest, q) = tokens_inv p.argv ts h in
      (
        rest,
        q
            ∙ ap (λ z. vector z rest) (sym (before-from (symbol d) ts))
            ∙ vector-append (before (symbol d) ts) (from (symbol d) ts) rest
            ∙ ap (λ z. map str (before (symbol d) ts) ++ vector z rest) e,
      )

  closed_args :
      (f : Bytes) (post : List Bytes)
      → from (symbol d) ts ≡ symbol d ∷ f ∷ post
      → (close_up (suc (length p.argv)) p.argv (length (before (symbol d) ts) + 2) >>= tokens)
        ≡ some (before (symbol d) ts ++ post)
  closed_args f post e =
      let pre = before (symbol d) ts in
      let (rest, q) = split_at (symbol d ∷ f ∷ post) e in
      ap (λ a. close_up (suc (length a)) a (length pre + 2) >>= tokens) q
      ∙ close_up-tokens pre (str (symbol d)) (str f) post rest _
          (room pre (str (symbol d)) (str f) post rest)

  refines_symbol :
      (post : List Bytes)
      → from (symbol d) ts ≡ symbol d ∷ post
      → (redirect os d p >>= view) ≡ some (redirect_tail os d (view_of p ts) (symbol d ∷ post))
  refines_symbol [] e =
      let pre = before (symbol d) ts in
      let (rest, q) = split_at (symbol d ∷ []) e in
      rw (redirect_no_file os d pre (Lacks-before (symbol d) ts) rest p q) (rw h)
  refines_symbol (f ∷ post) e =
      let pre = before (symbol d) ts in
      let (rest, q) = split_at (symbol d ∷ f ∷ post) e in
      rw (redirect_file os d pre (Lacks-before (symbol d) ts) rest p f post q) (
        opened-view d p (length pre) f ts (pre ++ post) (open_file os d f) h (closed_args f post e))

  refines_tail :
      (tail : List Bytes)
      → (tail ≡ []) ⊎ ((post : List Bytes) × (tail ≡ symbol d ∷ post))
      → from (symbol d) ts ≡ tail
      → (redirect os d p >>= view) ≡ some (redirect_tail os d (view_of p ts) tail)
  refines_tail tail (inl z) e =
      let (rest, q) = split_at [] (e ∙ z) in
      rw (redirect_absent os d (before (symbol d) ts) (Lacks-before (symbol d) ts) rest p q, z)
        (rw h)
  refines_tail tail (inr (post, z)) e = rw z (refines_symbol post (e ∙ z))

  -- On the array of a list of tokens, whatever else the array holds, redirect_in and redirect_out
  -- fault nowhere and do what a description on lists says, in every case: no symbol, a symbol with
  -- no file, a file that does not open, and a file that does.
  pub redirect-refines : (redirect os d p >>= view) ≡ some (redirect_spec os d (view_of p ts))
  unfolding redirect_spec
  redirect-refines = refines_tail (from (symbol d) ts) (from_head (symbol d) ts) refl
