-- ===== src/Shell/Run/Defs.antt =====
-- shell/sh9/is_background.c and run_command.c.
use dcl140_2023_nov.Prelude.{
  ℕ, suc, ◌+◌, ◌-◌, Bool, true, false, Option, none, some, List, [], ◌∷◌, ◌++◌, length, Bytes,
  codes, ◌==◌, if◌then◌else◌, ◌>>=◌,
}
use dcl140_2023_nov.Shell.Argv.{Slot, junk, null, str, fetch, store}
use dcl140_2023_nov.Shell.Process.{
  Msg, fputs, perror, exited_with, killed_by, Os, Proc, say, Tree, exit_errno,
}
use dcl140_2023_nov.Shell.Redirect.Defs.{Ret, ok, failed, redirect_in, redirect_out}
use dcl140_2023_nov.Shell.Pipe.Defs.{pipe_and_exec}

-- `while (*argv) argv++;`: the place of NULL, counted from `i`.
unfoldable pub end_of : List Slot → ℕ → Option ℕ
end_of [] i = none
end_of (junk ∷ a) i = none
end_of (null ∷ a) i = some i
end_of (str t ∷ a) i = end_of a (i + 1)

-- `*token == '&'`; the first byte of an empty token is its NUL.
unfoldable pub starts_amp : Bytes → Bool
starts_amp [] = false
starts_amp (c ∷ s) = c == b'&'

remove_amp : List Slot → ℕ → Bool → Option (Bool × List Slot)
remove_amp a i true = store a i null >>= λ b. some (true, b)
remove_amp a i false = some (false, a)

last_token : List Slot → ℕ → Slot → Option (Bool × List Slot)
unfolding remove_amp starts_amp
last_token a i junk = none
last_token a i null = none
last_token a i (str t) = remove_amp a i (starts_amp t)

first_token : List Slot → Slot → Option (Bool × List Slot)
unfolding last_token end_of
first_token a junk = none
first_token a null = some (false, a)
first_token a (str t) = end_of a 0 >>= λ n. fetch a (n - 1) >>= last_token a (n - 1)

-- `is_background(argv)`, and the vector that it leaves.
unfoldable pub is_background : List Slot → Option (Bool × List Slot)
unfolding first_token
is_background a = fetch a 0 >>= first_token a

-- A status of `waitpid`, as the macros of <sys/wait.h> tell it.
pub data WaitStatus : Type 0 where
  exited_code : ℕ → WaitStatus
  signaled : ℕ → WaitStatus
  stopped : ℕ → WaitStatus

-- `display_status(pid, stat)`: what it prints.
unfoldable pub display_status : ℕ → WaitStatus → List Msg
display_status pid (exited_code c) = if c == 0 then [] else exited_with pid c ∷ []
display_status pid (signaled s) = if s == 0 then [] else killed_by pid s ∷ []
display_status pid (stopped s) = []

-- The child of `run_command`: case 0 of its switch.
unfoldable pub after_out : Os → Ret × Proc → Option Tree
after_out os (failed, p) = some (exit_errno (say (fputs (codes "Missing output file.")) p))
after_out os (ok, p) = pipe_and_exec (suc (length p.argv)) os 0 p

unfoldable pub after_in : Os → Ret × Proc → Option Tree
after_in os (failed, p) = some (exit_errno (say (fputs (codes "Missing input file.")) p))
after_in os (ok, p) = redirect_out os p >>= after_out os

unfoldable pub run_child : Os → Proc → Option Tree
run_child os p = redirect_in os p >>= after_in os

-- What `fork` answers the shell: -1 and an errno, or the pid of the child.
pub data ForkAnswer : Type 0 where
  no_child : ℕ → ForkAnswer
  child : ℕ → ForkAnswer

-- What is left of a command: a shell that has exited, or the shell as it goes on, and the
-- processes of the command.
pub data Ran : Type 0 where
  shell_exits : Tree → Ran
  goes_on : Proc → Tree → Ran

-- The parent. Where `waitpid` fails (`none`) its status was never written, and is read: a fault.
await : Option WaitStatus → Bool → ℕ → Proc → Option Proc
await w true pid p = some p
await none false pid p = none
await (some st) false pid p = some (record p { err = p.err ++ display_status pid st })

unfoldable pub on_fork : Os → Option WaitStatus → Bool → Proc → ForkAnswer → Option Ran
unfolding await
on_fork os w background p (no_child e) =
    some (shell_exits (exit_errno (say (perror (codes "fork") e) (record p { errno = e }))))
on_fork os w background p (child pid) = run_child os (record p { err = [] }) >>= λ tree.
    await w background pid p >>= λ q. some (goes_on q tree)

unfoldable pub run_command : Os → ForkAnswer → Option WaitStatus → Proc → Option Ran
unfolding on_fork
run_command os forked w p = is_background p.argv >>= λ (background, a).
    on_fork os w background (record p { argv = a }) forked
