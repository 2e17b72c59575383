-- ===== src/Shell/Pipe/Defs.antt =====
-- shell/sh9/pipe_present.c and pipe_command.c.
use dcl140_2023_nov.Prelude.{
  ℕ, zero, suc, ◌+◌, Option, none, some, List, [], drop, Bytes, codes, ◌==◌, if◌then◌else◌, ◌>>=◌,
}
use dcl140_2023_nov.Shell.Argv.{Slot, junk, null, str, fetch, store, scan, tokens}
use dcl140_2023_nov.Shell.Process.{
  pipe_read, pipe_write, fputs, perror, Os, Proc, say, einval, Tree, became, forked, exit_errno,
}

-- The int that `pipe_present` returns: -1, or an index, which is 0 if there is no pipe.
pub data PipeIndex : Type 0 where
  minus_one : PipeIndex
  index : ℕ → PipeIndex

abbrev pub bar : Bytes
bar = codes "|"

behind_pipe : ℕ → Slot → Option PipeIndex
behind_pipe i junk = none
behind_pipe i null = some minus_one
behind_pipe i (str s) = some (index i)

at_pipe : List Slot → ℕ → Slot → Option PipeIndex
unfolding behind_pipe
at_pipe a i junk = none
at_pipe a i null = some (index 0)
at_pipe a i (str s) = fetch a (i + 1) >>= behind_pipe i

-- `pipe_present(argv)`
unfoldable pub pipe_present : List Slot → Option PipeIndex
unfolding at_pipe
pipe_present a = scan bar a 0 >>= λ i. if i == 0 then some minus_one else fetch a i >>= at_pipe a i

-- The end of `pipe_and_exec`, behind its switch.
unfoldable pub give_up : Proc → Tree
give_up p = exit_errno (say (perror (codes "Couldn't fork or exec child process") p.errno) p)

-- `execvp(argv[0], argv)`, and the end of the function where it returns.
unfoldable pub exec_argv : Proc → List Bytes → Option ℕ → Tree
exec_argv p ts none = became ts p.stdin p.stdout p.err
exec_argv p ts (some e) = give_up (record p { errno = e })

unfoldable pub execvp : Os → Proc → Option Tree
execvp os p = tokens p.argv >>= λ ts. some (exec_argv p ts (os.exec ts))

-- The parent of the `fork` becomes the command in front of the pipe, and its child goes on with
-- what is behind it; the child has written nothing yet.
unfoldable pub after_fork : (Proc → Option Tree) → Os → ℕ → ℕ → Proc → Option ℕ → Option Tree
after_fork again os k i p (some e) = some (give_up (record p { errno = e }))
after_fork again os k i p none = execvp os (record p { stdout = pipe_write k }) >>= λ talker.
    again (record p { argv = drop (i + 1) p.argv; stdin = pipe_read k; err = [] }) >>= λ listener.
    some (forked talker listener)

-- The result of `pipe(pipefds)` is not tested; where it fails, the descriptors that the code goes on
-- with were never written, which is a fault here.
unfoldable pub after_pipe : (Proc → Option Tree) → Os → ℕ → ℕ → Proc → Option ℕ → Option Tree
after_pipe again os k i p (some e) = none
after_pipe again os k i p none = after_fork again os k i p (os.fork k)

unfoldable pub on_index : (Proc → Option Tree) → Os → ℕ → Proc → PipeIndex → Option Tree
on_index again os k p minus_one = some (
    give_up (
      say (fputs (codes "Missing command next to pipe in commandline.\n"))
        (record p { errno = einval })))
on_index again os k p (index zero) = execvp os p
on_index again os k p (index (suc i)) = store p.argv (suc i) null >>= λ a.
    after_pipe again os k (suc i) (record p { argv = a }) (os.pipe k)

-- `pipe_and_exec(argv)` in the k-th command of a pipeline. Every call in itself has fewer tokens.
unfoldable pub pipe_and_exec : ℕ → Os → ℕ → Proc → Option Tree
pipe_and_exec zero os k p = none
pipe_and_exec (suc fuel) os k p =
    pipe_present p.argv >>= on_index (pipe_and_exec fuel os (k + 1)) os k p
