-- ===== src/Shell/Pipe/Refines.antt =====
-- `pipe_and_exec` on arrays makes the processes of `pipeline`.
use mathlib.Core.List.{append-nil}
use dcl140_2023_nov.Prelude.{
  ℕ, zero, suc, ◌+◌, ◌<◌, ◌≡◌, refl, ap, sym, ◌∙◌, Option, none, some, List, [], ◌∷◌, ◌++◌, map,
  length, length-append, Bytes, arith, ◌⊎◌, Bool-cases, drop, inl, inr, str_eq, str_eq_refl,
}
use dcl140_2023_nov.Shell.Argv.{
  Slot, null, str, vector, store, tokens, tokens-vector, Lacks, Lacks-before, before, from,
  before-from, from_head, store_here,
}
use dcl140_2023_nov.Shell.Process.{pipe_read, pipe_write, Os, Proc, Ports, ports_of, Tree}
use dcl140_2023_nov.Shell.Pipe.Defs.{
  index, bar, give_up, exec_argv, execvp, after_fork, after_pipe, on_index, pipe_and_exec,
}
use dcl140_2023_nov.Shell.Pipe.Spec.{replaced, commands, started, joined, listening, pipeline}
use dcl140_2023_nov.Shell.Pipe.Present.{place, pipe_present-place, split_tokens}

-- The commands of a list, by what its first bar cuts off.
commands-absent : (ts : List Bytes) → Lacks bar ts → commands ts ≡ ts ∷ []
unfolding commands
commands-absent [] l = refl
commands-absent (t ∷ ts) l = rw (l.0, commands-absent ts l.1)

commands-bar :
    (pre post : List Bytes) → Lacks bar pre → commands (pre ++ bar ∷ post) ≡ pre ∷ commands post
unfolding commands
commands-bar [] post l = rw (str_eq_refl bar)
commands-bar (t ∷ pre) post l = rw (l.0, commands-bar pre post l.1)

-- One command of the pipeline in the model and in the description.
execvp-started :
    (os : Os) (p : Proc) (c : List Bytes)
    → tokens p.argv ≡ some c
    → execvp os p ≡ some (started os (ports_of p) c)
unfolding execvp exec_argv give_up
execvp-started os p c h = rw h (by_answer (os.exec c))
  where
    by_answer : (o : Option ℕ) → some (exec_argv p c o) ≡ some (replaced (ports_of p) c o)
    by_answer none = refl
    by_answer (some e) = refl

pub commands_cons :
    (ts : List Bytes) → (d : List Bytes) × (cs : List (List Bytes)) × (commands ts ≡ d ∷ cs)
unfolding commands
commands_cons [] = ([], [], refl)
commands_cons (t ∷ ts) =
    let (d, cs, e) = commands_cons ts in
    elim (Bool-cases (str_eq t bar)) [
      | inl b ↦ ([], commands ts, rw b)
      | inr b ↦ (t ∷ d, cs, rw (b, e))
    ]

-- A pipeline that goes on behind its first bar.
pipeline-joined :
    (os : Os) (k : ℕ) (v : Ports) (t u : Bytes) (c post : List Bytes)
    → pipeline os k v ((t ∷ c) ∷ commands (u ∷ post))
      ≡ joined os k v
          (t ∷ c)
          (pipeline os (k + 1) (listening k v) (commands (u ∷ post)))
          (os.fork k)
unfolding pipeline commands
pipeline-joined os k v t u c post =
    let (d, cs, e) = commands_cons post in
    elim (Bool-cases (str_eq u bar)) [ inl b ↦ rw (b, e) | inr b ↦ rw (b, e) ]

drop_behind :
    (ts : List Bytes) (s : Slot) (rest : List Slot)
    → drop (length ts + 1) (map str ts ++ s ∷ rest) ≡ rest
drop_behind [] s rest = refl
drop_behind (t ∷ ts) s rest =
    let e : suc (length ts) + 1 ≡ suc (length ts + 1) = omega arith in rw e (drop_behind ts s rest)

all_before : (ts : List Bytes) → from bar ts ≡ [] → before bar ts ≡ ts
all_before ts e =
    sym (append-nil (before bar ts)) ∙ ap (λ z. before bar ts ++ z) (sym e) ∙ before-from bar ts

cut_whole : (ts post : List Bytes) → from bar ts ≡ bar ∷ post → before bar ts ++ bar ∷ post ≡ ts
cut_whole ts post e = ap (λ z. before bar ts ++ z) (sym e) ∙ before-from bar ts

commands_cut :
    (ts post : List Bytes) → from bar ts ≡ bar ∷ post → commands ts ≡ before bar ts ∷ commands post
commands_cut ts post e =
    ap commands (sym (cut_whole ts post e))
    ∙ commands-bar (before bar ts) post (Lacks-before bar ts)

shorter : (ts post : List Bytes) → from bar ts ≡ bar ∷ post → length post < length ts
shorter ts post e =
    omega
      (arith, ap (λ l. length l) (cut_whole ts post e), length-append (before bar ts) (bar ∷ post))

-- Every pipe of the line can be made.
abbrev pub PipesWork : Os → Type 0
PipesWork os = (k : ℕ) → os.pipe k ≡ none

module _ (os : Os) (pipes : PipesWork os) where
  -- The parts of one call, given the pipeline that the call in itself makes.
  joined-after_fork :
      (again : Proc → Option Tree) (k i : ℕ) (p : Proc) (c : List Bytes) (rest : Tree)
      (o : Option ℕ)
      → tokens p.argv ≡ some c
      → again (record p { argv = drop (i + 1) p.argv; stdin = pipe_read k; err = [] }) ≡ some rest
      → after_fork again os k i p o ≡ some (joined os k (ports_of p) c rest o)
  unfolding after_fork give_up
  joined-after_fork again k i p c rest (some e) h r = refl
  joined-after_fork again k i p c rest none h r =
      rw (execvp-started os (record p { stdout = pipe_write k }) c h) (rw r)

  refines_bar :
      (again : Proc → Option Tree) (k : ℕ) (p : Proc) (t u : Bytes) (c post : List Bytes)
      (rest : List Slot) (made : Tree)
      → p.argv ≡ map str (t ∷ c) ++ str bar ∷ vector (u ∷ post) rest
      → again (record p { argv = vector (u ∷ post) rest; stdin = pipe_read k; err = [] })
        ≡ some made
      → on_index again os k p (index (suc (length c)))
        ≡ some (joined os k (ports_of p) (t ∷ c) made (os.fork k))
  unfolding on_index after_pipe
  refines_bar again k p t u c post rest made q r =
      let tail = vector (u ∷ post) rest in
      rw (ap (λ a. store a (suc (length c)) null) q ∙ store_here (t ∷ c) tail (str bar) null) (
        rw (pipes k) (
          joined-after_fork again k (suc (length c))
            (record p { argv = map str (t ∷ c) ++ null ∷ tail }) (t ∷ c) made (os.fork k)
            (tokens-vector (t ∷ c) tail) (rw (drop_behind (t ∷ c) null tail) r)))

  -- What `pipe_and_exec` does at the index that `pipe_present` returned.
  refines_absent :
      (again : Proc → Option Tree) (k : ℕ) (p : Proc) (pre : List Bytes)
      → tokens p.argv ≡ some pre
      → Lacks bar pre
      → on_index again os k p (place pre []) ≡ some (pipeline os k (ports_of p) (commands pre))
  unfolding on_index pipeline give_up
  refines_absent again k p [] h l = unfold commands in refl
  refines_absent again k p (t ∷ pre) h l =
      rw (commands-absent (t ∷ pre) l) (execvp-started os p (t ∷ pre) h)

  refines_cut :
      (again : Proc → Option Tree) (k : ℕ) (p : Proc) (pre post : List Bytes) (rest : List Slot)
      → p.argv ≡ map str pre ++ vector (bar ∷ post) rest
      → ((q : Proc)
          → tokens q.argv ≡ some post
          → again q ≡ some (pipeline os (k + 1) (ports_of q) (commands post)))
      → on_index again os k p (place pre (bar ∷ post))
        ≡ some (pipeline os k (ports_of p) (pre ∷ commands post))
  unfolding on_index give_up pipeline
  refines_cut again k p [] post rest q ih = refl
  refines_cut again k p (t ∷ pre) [] rest q ih = unfold commands in refl
  refines_cut again k p (t ∷ pre) (u ∷ post) rest q ih =
      refines_bar again k p t u pre post rest _ q (
        ih (record p { argv = vector (u ∷ post) rest; stdin = pipe_read k; err = [] })
          (tokens-vector (u ∷ post) rest))
      ∙ ap some (sym (pipeline-joined os k (ports_of p) t u pre post))

  by_tail :
      (again : Proc → Option Tree) (k : ℕ) (p : Proc) (ts tail : List Bytes)
      → tokens p.argv ≡ some ts
      → (tail ≡ []) ⊎ ((post : List Bytes) × (tail ≡ bar ∷ post))
      → from bar ts ≡ tail
      → ((q : Proc) (post : List Bytes)
          → tokens q.argv ≡ some post
          → length post < length ts
          → again q ≡ some (pipeline os (k + 1) (ports_of q) (commands post)))
      → on_index again os k p (place (before bar ts) tail)
        ≡ some (pipeline os k (ports_of p) (commands ts))
  by_tail again k p ts tail h (inl z) e ih =
      let whole = all_before ts (e ∙ z) in
      rw (z, whole) (refines_absent again k p ts h (rw whole at (Lacks-before bar ts)))
  by_tail again k p ts tail h (inr (post, z)) e ih =
      let (rest, q) = split_tokens bar p.argv ts (bar ∷ post) h (e ∙ z) in
      rw (z, commands_cut ts post (e ∙ z))
        (refines_cut again k p (before bar ts) post rest q
          λ r hr. ih r post hr (shorter ts post (e ∙ z)))

  -- Whatever the tokens of the line, if every pipe can be made and the rounds are more than the
  -- tokens, pipe_and_exec makes the processes of the pipeline that the bars of the line describe.
  pub pipe_and_exec-pipeline :
      (fuel k : ℕ) (p : Proc) (ts : List Bytes)
      → length ts < fuel
      → tokens p.argv ≡ some ts
      → pipe_and_exec fuel os k p ≡ some (pipeline os k (ports_of p) (commands ts))
  unfolding pipe_and_exec
  pipe_and_exec-pipeline zero k p ts f h = absurd (omega arith)
  pipe_and_exec-pipeline (suc fuel) k p ts f h = rw (pipe_present-place p.argv ts h) (
      by_tail (pipe_and_exec fuel os (k + 1)) k p ts (from bar ts) h (from_head bar ts) refl
        λ q post hq l. pipe_and_exec-pipeline fuel (k + 1) q post (omega arith) hq)
