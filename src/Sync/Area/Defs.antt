-- ===== src/Sync/Area/Defs.antt =====
-- examples/mod11-synchronization/procnthread: how the processes of proc_mutex.c, proc_rw.c, proc_sem.c and
-- proc_stack.c open, expand, map and initialise the file that they share, up to their first use of a
-- lock in it. There is no file at first, and the calls succeed.
use dcl140_2023_nov.Prelude.{
  ℕ, zero, suc, ◌+◌, Bool, true, false, ◌≡◌, Option, none, some, List, [], ◌∷◌, get_elem?, set,
  ◌==◌, if◌then◌else◌, ◌>>=◌, ◌||◌, not,
}

-- B_FALSE and B_TRUE of a program, and whether it expands the file also where it did not create it.
pub record Program : Type 0 where
  pub b_false : ℕ
  pub b_true : ℕ
  pub expands : Bool

abbrev pub proc_mutex : Program
proc_mutex = record { b_false = 1; b_true = 0; expands = false }

abbrev pub proc_sem : Program
proc_sem = record { b_false = 0; b_true = 1; expands = false }

abbrev pub proc_rw : Program
proc_rw = record { b_false = 0; b_true = 1; expands = true }

abbrev pub proc_stack : Program
proc_stack = record { b_false = 0; b_true = 1; expands = true }

-- Where a process is: before the `open` that creates the file, the one that does not, `ftruncate`, the
-- initialisation, and its first use of the area; or it has used the area, or was killed by a use of
-- memory that no file is behind.
pub data Pc : Type 0 where
  create open_file truncate initialise access running killed : Pc

pub record Process : Type 0 where
  pub pc : Pc
  pub created_here : ℕ

-- Whether the file is there, and has its size; how often the locks in it were initialised; and the
-- processes.
pub record System : Type 0 where
  pub exists : Bool
  pub expanded : Bool
  pub inits : ℕ
  pub processes : List Process

-- An integer as a condition.
abbrev pub truth : ℕ → Bool
truth n = not (n == 0)

abbrev pub put : ℕ → Process → System → System
put i p s = record s { processes = set s.processes i p }

unfoldable pub by_pc : Program → ℕ → System → Process → Pc → Option System
by_pc g i s p create = some (
    if s.exists
    then put i (record p { pc = open_file }) s
    else put i (record { pc = truncate; created_here = g.b_true }) (record s { exists = true }))
by_pc g i s p open_file = some (put i (record p { pc = truncate }) s)
by_pc g i s p truncate = some (
    put i (record p { pc = initialise })
      (record s { expanded = s.expanded || (g.expands || truth p.created_here) }))
by_pc g i s p initialise = some (
    if truth p.created_here
    then (if s.expanded
        then put i (record p { pc = access }) (record s { inits = s.inits + 1 })
        else put i (record p { pc = killed }) s)
    else put i (record p { pc = access }) s)
by_pc g i s p access = some (put i (record p { pc = if s.expanded then running else killed }) s)
by_pc g i s p running = none
by_pc g i s p killed = none

-- A step of process `i`.
unfoldable pub step : Program → ℕ → System → Option System
step g i s = get_elem? s.processes i >>= λ p. by_pc g i s p p.pc

unfoldable pub fresh_processes : Program → ℕ → List Process
fresh_processes g zero = []
fresh_processes g (suc n) = record { pc = create; created_here = g.b_false } ∷ fresh_processes g n

abbrev pub initial : Program → ℕ → System
initial g n = record {
  exists = false;
  expanded = false;
  inits = 0;
  processes = fresh_processes g n;
}

-- The states that `n` processes come to.
pub data Reach (g : Program) (n : ℕ) : System → Type 0 where
  start : Reach g n (initial g n)
  next : {s t : System} (i : ℕ) → Reach g n s → step g i s ≡ some t → Reach g n t
