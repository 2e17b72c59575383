-- ===== src/Shell/Redirect/Defs.antt =====
-- shell/sh9/redirect_in.c and redirect_out.c, which differ in the symbol, the mode of `open` and
-- the stream. The shell's own streams are open, so `open` answers a descriptor above 2, which
-- `dup2` copies and `close` closes.
use dcl140_2023_nov.Prelude.{ℕ, suc, ◌+◌, Option, none, some, length, Bytes, codes, ◌>>=◌}
use dcl140_2023_nov.Shell.Argv.{Slot, junk, null, str, fetch, scan, close_up}
use dcl140_2023_nov.Shell.Process.{Stream, file, perror, Os, Proc, say, einval}

-- The int that the functions return: `ok` is 0 and `failed` is -1.
pub data Ret : Type 0 where
  ok failed : Ret

pub data Direction : Type 0 where
  input output : Direction

abbrev pub symbol : Direction → Bytes
symbol input = codes "<"
symbol output = codes ">"

abbrev pub open_file : Os → Direction → Bytes → Option ℕ
open_file os input = os.open_read
open_file os output = os.open_write

-- `dup2(fd, STDIN_FILENO)` or `dup2(fd, STDOUT_FILENO)`, and `close(fd)`.
abbrev pub dup : Direction → Stream → Proc → Proc
dup input s p = record p { stdin = s }
dup output s p = record p { stdout = s }

-- The file is there: open it, redirect, and close the vector up behind it.
unfoldable pub opened : Direction → Proc → ℕ → Bytes → Option ℕ → Option (Ret × Proc)
opened d p i f (some e) = some (failed, say (perror f e) (record p { errno = e }))
opened d p i f none = close_up (suc (length p.argv)) p.argv (i + 2) >>= λ a.
    some (ok, dup d (file f) (record p { argv = a }))

file_at : Os → Direction → Proc → ℕ → Slot → Option (Ret × Proc)
unfolding opened
file_at os d p i junk = none
file_at os d p i null = some (failed, record p { errno = einval })
file_at os d p i (str f) = opened d p i f (open_file os d f)

symbol_at : Os → Direction → Proc → ℕ → Slot → Option (Ret × Proc)
unfolding file_at
symbol_at os d p i junk = none
symbol_at os d p i null = some (ok, p)
symbol_at os d p i (str s) = fetch p.argv (i + 1) >>= file_at os d p i

unfoldable pub redirect : Os → Direction → Proc → Option (Ret × Proc)
unfolding symbol_at
redirect os d p = scan (symbol d) p.argv 0 >>= λ i. fetch p.argv i >>= symbol_at os d p i

abbrev pub redirect_in : Os → Proc → Option (Ret × Proc)
redirect_in os = redirect os input

abbrev pub redirect_out : Os → Proc → Option (Ret × Proc)
redirect_out os = redirect os output
