-- ===== src/Shell/Run/Child.antt =====
-- The child of `run_command` on arrays does what its description on lists says.
use mathlib.Core.Option
use dcl140_2023_nov.Prelude.{
  suc, ◌<◌, ◌≡◌, refl, ap, ◌∙◌, ◌%◌, Option, some, List, [], ◌∷◌, ◌++◌, map, length, length-append,
  length-map, Bytes, codes, arith, ◌>>=◌, >>=-eq-some,
}
use dcl140_2023_nov.Shell.Argv.{Slot, null, str, tokens, tokens_inv}
use dcl140_2023_nov.Shell.Process.{Os, Proc, View, view_of, Ports, Tree, fputs, exited}
use dcl140_2023_nov.Shell.Redirect.Defs.{Ret, ok, failed, input, output, redirect}
use dcl140_2023_nov.Shell.Redirect.Refines.{view, redirect_spec, redirect-refines}
use dcl140_2023_nov.Shell.Pipe.Spec.{pipeline, commands}
use dcl140_2023_nov.Shell.Pipe.Refines.{PipesWork, pipe_and_exec-pipeline}
use dcl140_2023_nov.Shell.Run.Defs.{after_out, after_in, run_child}

abbrev missing : View → Bytes → Tree
missing v text = exited (v.errno % 256) (v.err ++ fputs text ∷ [])

abbrev pub ports : View → Ports
ports v = record { stdin = v.stdin; stdout = v.stdout; errno = v.errno; err = v.err }

abbrev spec_out : Os → Ret × View → Tree
spec_out os (failed, v) = missing v (codes "Missing output file.")
spec_out os (ok, v) = pipeline os 0 (ports v) (commands v.args)

abbrev spec_in : Os → Ret × View → Tree
spec_in os (failed, v) = missing v (codes "Missing input file.")
spec_in os (ok, v) = spec_out os (redirect_spec os output v)

-- The processes of a command line: its first `<` and then its first `>` are taken out of the whole
-- line, and what is left is a pipeline.
abbrev pub child_spec : Os → View → Tree
child_spec os v = spec_in os (redirect_spec os input v)

-- What runs behind a redirection, on what the redirection shows.
on_view :
    (x : Option (Ret × Proc)) (f : Ret × Proc → Option Tree) (g : Ret × View → Tree) (r : Ret)
    (v : View)
    → (x >>= view) ≡ some (r, v)
    → ((p : Proc) (ts : List Bytes) (r' : Ret)
        → tokens p.argv ≡ some ts
        → f (r', p) ≡ some (g (r', view_of p ts)))
    → (x >>= f) ≡ some (g (r, v))
on_view x f g r v h run =
    let ((r', q), e, k) = >>=-eq-some x view h in
    let (ts, t, m) = >>=-eq-some (tokens q.argv) (λ us. some (r', view_of q us)) k in
    rw e (run q ts r' t) ∙ ap (λ o. Option.map g o) m

enough : (a : List Slot) (ts : List Bytes) → tokens a ≡ some ts → length ts < suc (length a)
enough a ts h =
    let (rest, q) = tokens_inv a ts h in
    omega (arith, ap (λ l. length l) q, length-append (map str ts) (null ∷ rest), length-map ts str)

module _ (os : Os) (pipes : PipesWork os) where
  after_out-spec :
      (p : Proc) (ts : List Bytes) (r : Ret)
      → tokens p.argv ≡ some ts
      → after_out os (r, p) ≡ some (spec_out os (r, view_of p ts))
  unfolding after_out
  after_out-spec p ts failed h = refl
  after_out-spec p ts ok h =
      pipe_and_exec-pipeline os pipes (suc (length p.argv)) 0 p ts (enough p.argv ts h) h

  after_in-spec :
      (p : Proc) (ts : List Bytes) (r : Ret)
      → tokens p.argv ≡ some ts
      → after_in os (r, p) ≡ some (spec_in os (r, view_of p ts))
  unfolding after_in
  after_in-spec p ts failed h = refl
  after_in-spec p ts ok h =
      on_view (redirect os output p) (after_out os) (spec_out os) _ _
        (redirect-refines os output p ts h) after_out-spec

  -- Whatever the tokens of the line, if the pipes can be made, the child neither faults nor runs
  -- without end, and the processes of the command are those of the description: a failing
  -- redirection ends the child with its message and errno, and else the rest is the pipeline.
  pub run_child-spec :
      (p : Proc) (ts : List Bytes)
      → tokens p.argv ≡ some ts
      → run_child os p ≡ some (child_spec os (view_of p ts))
  unfolding run_child
  run_child-spec p ts h =
      on_view (redirect os input p) (after_in os) (spec_in os) _ _
        (redirect-refines os input p ts h) after_in-spec
