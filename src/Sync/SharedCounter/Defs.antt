-- ===== src/Sync/SharedCounter/Defs.antt =====
-- examples/mod11-synchronization/procnthread/proc_mutex.c: any number of processes that count one
-- variable up in a loop without end, with a mutex around it, from where the mutex is initialised; and the
-- handler of ^C. The mutex is of the default kind, on which `pthread_mutex_unlock` leaves it free,
-- whoever has it.
use dcl140_2023_nov.Prelude.{
  ℕ, zero, suc, ◌+◌, ◌≡◌, ◌⊎◌, Bool, true, false, Option, none, some, List, [], ◌∷◌, get_elem?, set,
  if◌then◌else◌, ◌>>=◌,
}

-- Where a process is: before `pthread_mutex_lock`, before the counter is read, before it is written,
-- before the `printf` of it, before `pthread_mutex_unlock`, or behind `exit`.
pub data Pc : Type 0 where
  waiting got held stored written gone : Pc

pub record Process : Type 0 where
  pub pc : Pc
  pub temporary_storage : ℕ

-- The mutex, the counter, the values that were printed behind " to ", the last one first, and the
-- processes.
pub record System : Type 0 where
  pub locked : Bool
  pub count : ℕ
  pub printed : List ℕ
  pub processes : List Process

abbrev pub put : ℕ → Process → System → System
put i p s = record s { processes = set s.processes i p }

-- What process `i` does next in its loop.
unfoldable pub by_pc : ℕ → System → Process → Pc → Option System
by_pc i s p waiting =
    if s.locked then none else some (put i (record p { pc = got }) (record s { locked = true }))
by_pc i s p got = some (put i (record { pc = held; temporary_storage = s.count + 1 }) s)
by_pc i s p held =
    some (put i (record p { pc = stored }) (record s { count = p.temporary_storage }))
by_pc i s p stored =
    some (put i (record p { pc = written }) (record s { printed = s.count ∷ s.printed }))
by_pc i s p written = some (put i (record p { pc = waiting }) (record s { locked = false }))
by_pc i s p gone = none

unfoldable pub step : ℕ → System → Option System
step i s = get_elem? s.processes i >>= λ p. by_pc i s p p.pc

-- `cleanup` in a process: it unlocks the mutex and exits.
abbrev pub cleanup : ℕ → Process → System → System
cleanup i p s = put i (record p { pc = gone }) (record s { locked = false })

abbrev pub is_gone : Pc → Bool
is_gone gone = true
is_gone _ = false

-- SIGINT reaches a process that has not exited.
unfoldable pub interrupt : ℕ → System → Option System
interrupt i s = get_elem? s.processes i >>= λ p. if is_gone p.pc then none else some (cleanup i p s)

-- Whether a process is between its lock and its unlock.
abbrev pub inside_at : Pc → ℕ
inside_at waiting = 0
inside_at got = 1
inside_at held = 1
inside_at stored = 1
inside_at written = 1
inside_at gone = 0

abbrev pub inside : Process → ℕ
inside p = inside_at p.pc

-- The process that has the mutex.
pub record Has (s : System) (i : ℕ) : Type 0 where
  pub process : Process
  pub is_there : get_elem? s.processes i ≡ some process
  pub is_inside : inside process ≡ 1

unfoldable pub fresh_processes : ℕ → List Process
fresh_processes zero = []
fresh_processes (suc n) = record { pc = waiting; temporary_storage = 0 } ∷ fresh_processes n

abbrev pub initial : ℕ → System
initial n = record { locked = false; count = 0; printed = []; processes = fresh_processes n }

-- The states that `n` processes come to. Either any of them may be interrupted at any time
-- (`anywhere`), or only the one that has the mutex, and every one where nobody has it.
pub data Reach (anywhere : Bool) (n : ℕ) : System → Type 0 where
  start : Reach anywhere n (initial n)
  next : {s t : System} (i : ℕ) → Reach anywhere n s → step i s ≡ some t → Reach anywhere n t
  interrupted :
      {s t : System} (i : ℕ)
      → Reach anywhere n s
      → (anywhere ≡ true) ⊎ ((s.locked ≡ false) ⊎ Has s i)
      → interrupt i s ≡ some t
      → Reach anywhere n t
