-- ===== src/Shell/Tests.antt =====
-- The shell on concrete lines and concrete answers of the system.
mod Children
use dcl140_2023_nov.Prelude.{
  ℕ, zero, suc, ◌+◌, ◌<◌, ◌≡◌, ◌≢◌, refl, inl, Bool, true, false, Option, none, some, List, [], ◌∷◌,
  ◌++◌, All, map, Bytes, codes, arith, length, ◌>>=◌, if◌then◌else◌, c_str, get_line,
}
use dcl140_2023_nov.Shell.Argv.{vector, tokens}
use dcl140_2023_nov.Shell.Parse.Defs.{parse}
use dcl140_2023_nov.Shell.Parse.Words.{words, expected, parse-words}
use dcl140_2023_nov.Shell.Process.{file, inherited, Os, Proc, view_of}
use dcl140_2023_nov.Shell.Redirect.Earlier.{redirect_sh6, redirect_sh6-all_but_last}
use dcl140_2023_nov.Shell.Redirect.Defs.{ok, input, redirect}
use dcl140_2023_nov.Shell.Redirect.Refines.{view, redirect_spec, redirect-refines}
use dcl140_2023_nov.Shell.Pipe.Defs.{pipe_and_exec}
use dcl140_2023_nov.Shell.Pipe.Spec.{commands}
use dcl140_2023_nov.Shell.Pipe.Wiring.{AllWorks, NonEmpty, programs, wire, pipe_and_exec-wire}
use dcl140_2023_nov.Shell.Run.Defs.{WaitStatus, exited_code, signaled, child, run_command}
use dcl140_2023_nov.Shell.Run.Command.{view_ran, run_spec, run_command-spec}
use dcl140_2023_nov.Shell.Reap.Defs.{Answer, nobody, error, reaped, Kernel, returned, child_handler}
use dcl140_2023_nov.Shell.Reap.Handler.{reports, after, child_handler-reaps}
use dcl140_2023_nov.Shell.Builtin.Defs.{Env, Sh, is_builtin, do_builtin, Handler, inbuilts}
use dcl140_2023_nov.Shell.Builtin.Dispatch.{Selects, is_some, handled, is_builtin-do_builtin}
use dcl140_2023_nov.Shell.Main.Defs.{System, Session, main_loop}
use dcl140_2023_nov.Shell.Main.Total.{Returns, Reliable, main_loop-Returns}

abbrev line : Bytes
line = codes " sort  names | head\n"

parse-words_example : parse (some line) ≡ some (expected (words line))
parse-words_example = parse-words line

-- A system on which every call succeeds.
abbrev working : Os
working = record {
  open_read = λ f. none;
  open_write = λ f. none;
  exec = λ c. none;
  pipe = λ k. none;
  fork = λ k. none;
}

abbrev all_works : AllWorks working
all_works = record { pipes = λ k. refl; forks = λ k. refl; execs = λ c. refl }

abbrev process : List Bytes → Proc
process ts = record {
  argv = vector ts [];
  stdin = inherited;
  stdout = inherited;
  errno = 0;
  err = [];
}

abbrev redirection : List Bytes
redirection = codes "sort" ∷ codes "<" ∷ codes "names" ∷ codes "-r" ∷ []

redirect-refines_example :
    (redirect working input (process redirection) >>= view)
    ≡ some (redirect_spec working input (view_of (process redirection) redirection))
unfolding tokens
redirect-refines_example = redirect-refines working input (process redirection) redirection refl

abbrev two_files : List Bytes
two_files = codes "sort" ∷ codes "<" ∷ codes "names" ∷ codes ">" ∷ codes "sorted" ∷ []

redirect_sh6-all_but_last_example :
    (redirect_sh6 working input (process two_files) >>= view)
    ≡ some (
      ok,
      record (view_of (process two_files) two_files) {
        stdin = file (codes "names");
        args = codes "sort" ∷ codes "<" ∷ codes ">" ∷ [];
      },
    )
unfolding tokens dcl140_2023_nov.Prelude.str_eq
redirect_sh6-all_but_last_example =
    redirect_sh6-all_but_last working input (process two_files) (codes "sort" ∷ [])
      (codes ">" ∷ codes "sorted" ∷ []) (codes "names") (refl, tt) refl refl

abbrev piped : List Bytes
piped = codes "sort" ∷ codes "names" ∷ codes "|" ∷ codes "head" ∷ []

piped-NonEmpty : All NonEmpty (commands piped)
unfolding commands dcl140_2023_nov.Prelude.str_eq
piped-NonEmpty = (λ e. cc, (λ e. cc, tt))

pipe_and_exec-wire_example :
    (pipe_and_exec 5 working 0 (process piped) >>= λ t. some (programs t))
    ≡ some (wire 0 inherited inherited (commands piped))
unfolding tokens
pipe_and_exec-wire_example =
    pipe_and_exec-wire working all_works 5 0 (process piped) piped (omega arith) refl piped-NonEmpty

abbrev in_background : List Bytes
in_background = codes "sleep" ∷ codes "9" ∷ codes "&" ∷ []

run_command-spec_example :
    (run_command working (child 7) (some (exited_code 1)) (process in_background) >>= view_ran)
    ≡ some
        (run_spec working (child 7) (exited_code 1) (view_of (process in_background) in_background))
unfolding tokens
run_command-spec_example =
    run_command-spec working (λ k. refl) (exited_code 1) (process in_background) in_background
      (child 7) refl

abbrev Dead : Type 0
Dead = List (ℕ × WaitStatus)

abbrev wait_first : Dead → Answer × Dead
wait_first [] = (nobody, [])
wait_first ((pid, st) ∷ l) = (reaped pid st, l)

abbrev kernel : Kernel
kernel = record {
  Table = Dead;
  waitpid = wait_first;
  dead = λ s. s;
  takes_first = λ s pid st rest h. rw h (refl, refl);
}

abbrev two_dead : Dead
two_dead = (7, exited_code 1) ∷ (9, signaled 2) ∷ []

child_handler-reaps_example :
    (child_handler kernel 3 4 two_dead [] ≡ some (returned [] 4 (reports two_dead)))
    × (kernel.dead (after kernel two_dead two_dead) ≡ [])
unfolding after
child_handler-reaps_example =
    child_handler-reaps kernel (λ s h. rw h (inl refl, refl)) two_dead 3 4 two_dead [] refl
      (omega arith)

no_dead : (pid : ℕ) (st : WaitStatus) (rest : Dead) → [] ≢ (pid, st) ∷ rest
no_dead pid st rest h = cc

-- A kernel whose `waitpid` is always interrupted.
abbrev interrupted : Kernel
interrupted = record {
  Table = Unit;
  waitpid = λ s. (error 4, s);
  dead = λ s. [];
  takes_first = λ s pid st rest h. absurd (no_dead pid st rest h);
}

abbrev env : Env
env = record {
  home = some (codes "/root");
  chdir = λ d. none;
  uname = codes "host";
  uid = 0;
  passwd = λ u. some (codes "root", 0);
  group = λ g. some (codes "root");
  getcwd = some (codes "/");
}

abbrev shell : Sh
shell = record { this = none; nodename = []; out = []; err = []; dirs = [] }

is_builtin-do_builtin_example :
    (o : Option Handler) × Selects (codes "pwd") inbuilts o
    × ((is_builtin (codes "pwd") shell).0 ≡ is_some o)
    × (do_builtin env (vector (codes "pwd" ∷ []) []) (is_builtin (codes "pwd") shell).1
        ≡ handled env (vector (codes "pwd" ∷ []) []) shell o)
is_builtin-do_builtin_example =
    is_builtin-do_builtin env (vector (codes "pwd" ∷ []) []) shell (codes "pwd")

abbrev system : System
system = record {
  env = env;
  os = λ n. working;
  fork = λ n. child 7;
  wait = λ n. some (exited_code 0);
}

abbrev reliable : Reliable system
reliable = record {
  pipes = λ n k. refl;
  waits = λ n. (_, refl);
  user = (_, refl);
  groups = λ g. (_, refl);
  directory = (_, refl);
}

abbrev session : Session
session = record { sh = shell; count = 0; trees = [] }

abbrev script : Bytes
script = codes "cd\nsort names | head &\n"

main_loop-Returns_example : Returns (main_loop 30 system session script)
main_loop-Returns_example = main_loop-Returns system reliable 30 session script (omega arith)
