-- ===== src/Shell/Run/Command.antt =====
-- `run_command` on arrays does what its description on lists says.
use mathlib.Core.Option
use dcl140_2023_nov.Prelude.{
  ℕ, ◌≡◌, refl, ap, ◌∙◌, ◌%◌, Bool, true, false, Option, some, List, [], ◌∷◌, ◌++◌, Bytes, codes,
  ◌>>=◌, >>=-eq-some,
}
use dcl140_2023_nov.Shell.Argv.{tokens}
use dcl140_2023_nov.Shell.Process.{Os, Proc, View, view_of, Tree, perror, exited}
use dcl140_2023_nov.Shell.Pipe.Refines.{PipesWork}
use dcl140_2023_nov.Shell.Run.Defs.{
  is_background, WaitStatus, display_status, ForkAnswer, no_child, child, Ran, shell_exits, goes_on,
  on_fork, run_command,
}
use dcl140_2023_nov.Shell.Run.Background.{split_amp, shown, is_background-split_amp}
use dcl140_2023_nov.Shell.Run.Child.{child_spec, run_child-spec}

-- What is left of a command, with the argv of the shell as a list of tokens.
pub data RanView : Type 0 where
  quits : Tree → RanView
  continues : View → Tree → RanView

abbrev pub view_ran : Ran → Option RanView
view_ran (shell_exits t) = some (quits t)
view_ran (goes_on p t) = tokens p.argv >>= λ us. some (continues (view_of p us) t)

abbrev awaited : WaitStatus → Bool → ℕ → View → View
awaited st true pid v = v
awaited st false pid v = record v { err = v.err ++ display_status pid st }

abbrev forked_spec : Os → ForkAnswer → WaitStatus → Bool → View → RanView
forked_spec os (no_child e) st b v =
    quits (exited (e % 256) (v.err ++ perror (codes "fork") e ∷ []))
forked_spec os (child pid) st b v =
    continues (awaited st b pid v) (child_spec os (record v { err = [] }))

-- A command line, on its tokens.
abbrev pub run_spec : Os → ForkAnswer → WaitStatus → View → RanView
run_spec os fk st v =
    forked_spec os fk st (split_amp v.args).0 (record v { args = (split_amp v.args).1 })

module _ (os : Os) (pipes : PipesWork os) (st : WaitStatus) where
  on_fork-spec :
      (p : Proc) (us : List Bytes) (b : Bool) (fk : ForkAnswer)
      → tokens p.argv ≡ some us
      → (on_fork os (some st) b p fk >>= view_ran) ≡ some (forked_spec os fk st b (view_of p us))
  unfolding on_fork
  on_fork-spec p us b (no_child e) h = refl
  on_fork-spec p us true (child pid) h =
      rw (run_child-spec os pipes (record p { err = [] }) us h) (rw h)
  on_fork-spec p us false (child pid) h =
      rw (run_child-spec os pipes (record p { err = [] }) us h) (rw h)

  -- Whatever the tokens of the line, if the pipes can be made and the wait for a foreground child
  -- succeeds, run_command does not fault: where fork fails the shell ends with its errno; else the
  -- processes are those of the line without a last token in &, and the shell goes on with that
  -- line and reports the status exactly if there was no such token.
  pub run_command-spec :
      (p : Proc) (ts : List Bytes) (fk : ForkAnswer)
      → tokens p.argv ≡ some ts
      → (run_command os fk (some st) p >>= view_ran) ≡ some (run_spec os fk st (view_of p ts))
  unfolding run_command
  run_command-spec p ts fk h =
      let ((b, a), e, k) =
        >>=-eq-some (is_background p.argv) shown (is_background-split_amp p.argv ts h) in
      let (us, t, m) = >>=-eq-some (tokens a) (λ us. some (b, us)) k in
      rw e (on_fork-spec (record p { argv = a }) us b fk t)
      ∙ ap
          (Option.map (λ (z : Bool × List Bytes).
            forked_spec os fk st z.0 (record (view_of p ts) { args = z.1 })))
          m
