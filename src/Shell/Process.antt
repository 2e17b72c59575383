-- ===== src/Shell/Process.antt =====
-- A process of the shell as far as the commands see it: its argv, where its standard streams lead,
-- errno, and what it wrote to stderr. The operating system is a record of answers.
use dcl140_2023_nov.Prelude.{ℕ, ◌%◌, Option, List, [], ◌∷◌, ◌++◌, Bytes}
use dcl140_2023_nov.Shell.Argv.{Slot}

pub data Stream : Type 0 where
  inherited : Stream
  file : Bytes → Stream
  pipe_read pipe_write : ℕ → Stream

-- What a program writes to stderr: `fputs(s, stderr)`, `perror(s)` at an errno, and the two lines
-- of `display_status`.
pub data Msg : Type 0 where
  fputs : Bytes → Msg
  perror : Bytes → ℕ → Msg
  exited_with : (pid status : ℕ) → Msg
  killed_by : (pid signal : ℕ) → Msg

-- What the system calls answer: `none` is success and `some e` is -1 with errno `e`. A successful
-- `execvp` does not return. `fork k` and `pipe k` are the calls in the k-th command of a pipeline.
pub record Os : Type 0 where
  pub open_read : Bytes → Option ℕ
  pub open_write : Bytes → Option ℕ
  pub exec : List Bytes → Option ℕ
  pub pipe : ℕ → Option ℕ
  pub fork : ℕ → Option ℕ

pub record Proc : Type 0 where
  pub argv : List Slot
  pub stdin : Stream
  pub stdout : Stream
  pub errno : ℕ
  pub err : List Msg

abbrev pub say : Msg → Proc → Proc
say m p = record p { err = p.err ++ m ∷ [] }

-- What a process shows, its argv as a list of tokens.
pub record View : Type 0 where
  pub args : List Bytes
  pub stdin : Stream
  pub stdout : Stream
  pub errno : ℕ
  pub err : List Msg

abbrev pub view_of : Proc → List Bytes → View
view_of p ts = record {
  args = ts;
  stdin = p.stdin;
  stdout = p.stdout;
  errno = p.errno;
  err = p.err;
}

-- The same without the argv.
pub record Ports : Type 0 where
  pub stdin : Stream
  pub stdout : Stream
  pub errno : ℕ
  pub err : List Msg

abbrev pub ports_of : Proc → Ports
ports_of p = record { stdin = p.stdin; stdout = p.stdout; errno = p.errno; err = p.err }

-- errno values of <errno.h>
abbrev pub echild : ℕ
echild = 10

abbrev pub einval : ℕ
einval = 22

-- The processes that a command makes: one that became another program, with its streams; one that
-- called `exit`; and one that forked, as the parent goes on and as the child does.
pub data Tree : Type 0 where
  became : List Bytes → Stream → Stream → List Msg → Tree
  exited : ℕ → List Msg → Tree
  forked : Tree → Tree → Tree

-- `exit(errno)`: the status that a parent sees has eight bits.
abbrev pub exit_errno : Proc → Tree
exit_errno p = exited (p.errno % 256) p.err
