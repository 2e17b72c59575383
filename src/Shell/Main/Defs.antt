-- ===== src/Shell/Main/Defs.antt =====
-- shell/sh9/shell.c: the loop over the lines of the input. Signals are left out here.
use dcl140_2023_nov.Prelude.{
  ℕ, zero, suc, ◌+◌, Bool, true, false, Option, none, some, List, [], ◌∷◌, ◌++◌, Bytes, codes,
  c_str, get_line, ◌>>=◌,
}
use dcl140_2023_nov.Shell.Argv.{Slot, junk, null, str, fetch}
use dcl140_2023_nov.Shell.Process.{inherited, Os, Proc, Tree}
use dcl140_2023_nov.Shell.Parse.Defs.{Parsed, nothing, argv, parse, free_argv}
use dcl140_2023_nov.Shell.Run.Defs.{WaitStatus, ForkAnswer, Ran, shell_exits, goes_on, run_command}
use dcl140_2023_nov.Shell.Builtin.Defs.{
  text, Env, Sh, Done, goes, exits, print, is_builtin, do_builtin,
}

abbrev pub longline : ℕ
longline = 255

-- The calls that a command makes, by its number: `os`, `fork`, and `waitpid` for a foreground child.
pub record System : Type 0 where
  pub env : Env
  pub os : ℕ → Os
  pub fork : ℕ → ForkAnswer
  pub wait : ℕ → Option WaitStatus

-- The shell between two lines: its state, the number of its commands and their processes.
pub record Session : Type 0 where
  pub sh : Sh
  pub count : ℕ
  pub trees : List Tree

-- A line leaves a session, or a shell that has exited, by a builtin or by a failing `fork`.
pub data After : Type 0 where
  ready : Session → After
  left : Session → After
  failed : Tree → After

freed : Session → List Slot → Option After
freed s a = free_argv a >>= λ ts. some (ready s)

unfoldable pub after_builtin : Session → List Slot → Done → Option After
unfolding freed
after_builtin s a (goes sh) = freed (record s { sh = sh }) a
after_builtin s a (exits c sh) = some (left (record s { sh = sh }))

unfoldable pub after_command : Session → Ran → Option After
unfolding freed
after_command s (shell_exits t) = some (failed t)
after_command s (goes_on p t) =
    freed
      (record s {
        sh = record s.sh { err = p.err };
        count = s.count + 1;
        trees = s.trees ++ t ∷ [];
      })
      p.argv

abbrev pub shell_proc : Session → List Slot → Proc
shell_proc s a = record {
  argv = a;
  stdin = inherited;
  stdout = inherited;
  errno = 0;
  err = s.sh.err;
}

unfoldable pub command : System → Session → List Slot → Bool × Sh → Option After
unfolding after_builtin after_command
command y s a (true, sh) = do_builtin y.env a sh >>= after_builtin (record s { sh = sh }) a
command y s a (false, sh) =
    run_command (y.os s.count) (y.fork s.count) (y.wait s.count)
      (shell_proc (record s { sh = sh }) a)
    >>= after_command (record s { sh = sh })

first_word : System → Session → List Slot → Slot → Option After
first_word y s a junk = none
first_word y s a null = none
first_word y s a (str w) = command y s a (is_builtin w s.sh)

unfoldable pub on_parsed : System → Session → Parsed → Option After
unfolding first_word
on_parsed y s nothing = some (ready s)
on_parsed y s (argv a) = fetch a 0 >>= first_word y s a

-- The body of the loop on the buffer that `fgets` filled.
unfoldable pub do_line : System → Session → Bytes → Option After
unfolding on_parsed
do_line y s line = parse (some (c_str line)) >>= on_parsed y s

abbrev pub prompt : Session → Session
prompt s = record s { sh = print (text (codes "myshell -> ") ∷ []) s.sh }

-- How the program ends: `exit(0)` at the end of the input or by a builtin, or `exit(errno)`.
pub data Ended : Type 0 where
  exit_ok : Session → Ended
  exit_failed : Tree → Ended

unfoldable pub on_after : (Session → Option Ended) → After → Option Ended
on_after again (ready s) = again (prompt s)
on_after again (left s) = some (exit_ok s)
on_after again (failed t) = some (exit_failed t)

unfoldable pub on_line :
    (Session → Bytes → Option Ended) → System → Session → Bytes × Bytes → Option Ended
unfolding on_after
on_line again y s ([], rest) = some (exit_ok s)
on_line again y s (c ∷ line, rest) = do_line y s (c ∷ line) >>= on_after (λ t. again t rest)

-- The loop, behind the first prompt.
unfoldable pub main_loop : ℕ → System → Session → Bytes → Option Ended
unfolding on_line
main_loop zero y s input = none
main_loop (suc fuel) y s input = on_line (main_loop fuel y) y s (get_line (suc 253) input)
