-- ===== src/Sync/Tests/Processes.antt =====
-- Readers, writers and the processes of a shared area in concrete states.
use dcl140_2023_nov.Prelude.{
  arith, ℕ, ◌+◌, ◌*◌, ◌≤◌, ◌≡◌, ◌⊎◌, refl, true, false, length, Option, none, some, [], ◌∷◌, All,
}
use dcl140_2023_nov.Sync.Sums.{total}
use dcl140_2023_nov.Sync.ReadersWriters.Defs as Rw
use dcl140_2023_nov.Sync.ReadersWriters.Defs.{loop_max, step, by_pc, initial, all_threads, get_lock}
use dcl140_2023_nov.Sync.ReadersWriters.Exclusion.{Excluded, Reach-Excluded}
use dcl140_2023_nov.Sync.ReadersWriters.Completion.{left, HasEnded, Runs, Reach-completion}
use dcl140_2023_nov.Sync.Area.Defs as Area
use dcl140_2023_nov.Sync.Area.Defs.{proc_mutex, proc_rw, Process}
use dcl140_2023_nov.Sync.Area.SetUp.{Reach-once}
use dcl140_2023_nov.Sync.Area.Weights.{is_killed}
use dcl140_2023_nov.Sync.Tellers.Defs as Bank
use dcl140_2023_nov.Sync.Tellers.Progress as BankProgress
use dcl140_2023_nov.Sync.Tellers.Progress.{HasGone, Reach-serving}
use dcl140_2023_nov.Sync.SharedStack.Defs as Stack
use dcl140_2023_nov.Sync.SharedStack.Counts.{rounds}
use dcl140_2023_nov.Sync.SharedStack.Invariant.{Reach-buffer}
use dcl140_2023_nov.Sync.SharedStack.Progress as StackProgress
use dcl140_2023_nov.Sync.SharedStack.Progress.{Reach-unstuck}
use dcl140_2023_nov.Sync.SharedStack.Termination as Termination
use dcl140_2023_nov.Sync.SharedStack.Termination.{run-made}
use dcl140_2023_nov.Sync.Tellers.Termination as BankTermination
use dcl140_2023_nov.Sync.Tellers.Termination.{made-le}
use dcl140_2023_nov.Sync.SharedStack.Deadlock.{IsAsleep, Reach-deadlock}

abbrev behind_step : Option Rw.System → Rw.System
behind_step none = initial 1
behind_step (some s) = s

-- The first reader has the lock of rw.c.
abbrev tested : Rw.System
tested = behind_step (step loop_max true 0 (initial 1))

abbrev locked : Rw.System
locked = behind_step (step loop_max true 0 tested)

locked-Reach : Rw.Reach loop_max 1 true 2 locked
unfolding step by_pc initial all_threads get_lock
locked-Reach = Rw.next 0 (Rw.next 0 Rw.start refl) refl

Reach-Excluded_example : Excluded true locked
Reach-Excluded_example = Reach-Excluded loop_max 1 true locked-Reach

Reach-completion_example :
    (2 + total (left loop_max) locked.threads ≡ 1 * (11 * (3 * loop_max + 1)))
    × (Runs loop_max true locked ⊎ All (HasEnded loop_max) locked.threads)
Reach-completion_example = Reach-completion loop_max 1 true locked-Reach

abbrev in_area : Option Area.System → Area.System
in_area none = Area.initial proc_rw 2
in_area (some s) = s

-- The first process has created the file.
abbrev created : Area.System
created = in_area (Area.step proc_rw 0 (Area.initial proc_rw 2))

created-Reach : Area.Reach proc_rw 2 created
unfolding dcl140_2023_nov.Sync.Area.Defs.step dcl140_2023_nov.Sync.Area.Defs.by_pc
    dcl140_2023_nov.Sync.Area.Defs.fresh_processes
created-Reach = Area.next 0 Area.start refl

Reach-once_example :
    (created.inits ≤ 1) × ((proc_rw.expands ≡ false) ⊎ (total is_killed created.processes ≡ 0))
Reach-once_example = Reach-once proc_rw refl refl created-Reach

abbrev behind_move : Option Bank.Bank → Bank.Bank
behind_move none = Bank.initial Bank.proc_sem 2
behind_move (some s) = s

-- A client of the first process of proc_sem.c has a teller.
abbrev at_teller : Bank.Bank
at_teller = behind_move (Bank.step (Bank.hurried 0) (Bank.initial Bank.proc_sem 2))

at_teller-Reach : Bank.Reach Bank.proc_sem 2 at_teller
unfolding dcl140_2023_nov.Sync.Tellers.Defs.step dcl140_2023_nov.Sync.Tellers.Defs.all_clients
    dcl140_2023_nov.Sync.Tellers.Defs.clients
at_teller-Reach = Bank.next (Bank.hurried 0) Bank.start refl

Reach-serving_example : BankProgress.Runs at_teller ⊎ All HasGone at_teller.clients
Reach-serving_example = Reach-serving (omega arith) at_teller-Reach

abbrev behind_call : Option Stack.System → Stack.System
behind_call none = Stack.initial 2 (0 ∷ 0 ∷ 0 ∷ [])
behind_call (some s) = s

-- The first consumer of two processes waits.
abbrev waits : Stack.System
waits = behind_call (Stack.step (Stack.calls 1 0 none) (Stack.initial 2 (0 ∷ 0 ∷ 0 ∷ [])))

waits-Reach : Stack.Reach 2 waits
unfolding dcl140_2023_nov.Sync.SharedStack.Defs.step
    dcl140_2023_nov.Sync.SharedStack.Defs.threads_of
waits-Reach = Stack.next (Stack.calls 1 0 none) (Stack.start (0 ∷ 0 ∷ 0 ∷ []) refl) refl

Reach-unstuck_example :
    StackProgress.Runs waits ⊎ (All StackProgress.HasEnded waits.threads × (waits.index ≡ 0))
Reach-unstuck_example = Reach-unstuck 2 (omega arith) waits-Reach

Reach-buffer_example :
    (length waits.buffer ≡ 3)
    × (waits.index ≤ 3)
    × (waits.index + total (rounds Stack.producer) waits.threads
        ≡ total (rounds Stack.consumer) waits.threads)
Reach-buffer_example = Reach-buffer 2 waits-Reach

Reach-deadlock_example :
    (s : Stack.System) × Stack.Reach 4 s
    × All IsAsleep s.threads
    × ((i d : ℕ) (w : Option ℕ) → Stack.step (Stack.calls i d w) s ≡ none)
Reach-deadlock_example = Reach-deadlock 0 0 0 65

run-made_example :
    Termination.made (Stack.calls 1 0 none ∷ [])
    ≤ 2 * 152 + Termination.unsignalled (Stack.calls 1 0 none ∷ [])
unfolding dcl140_2023_nov.Sync.SharedStack.Defs.run dcl140_2023_nov.Sync.SharedStack.Defs.step
    dcl140_2023_nov.Sync.SharedStack.Defs.threads_of
run-made_example = run-made 2 (0 ∷ 0 ∷ 0 ∷ []) (Stack.calls 1 0 none ∷ []) {s = waits} refl refl

made-le_example :
    BankTermination.made (Bank.hurried 0 ∷ [])
    ≤ 2 * (3 * 25) + BankTermination.unsignalled (Bank.hurried 0 ∷ [])
unfolding dcl140_2023_nov.Sync.Tellers.Termination.run dcl140_2023_nov.Sync.Tellers.Defs.step
    dcl140_2023_nov.Sync.Tellers.Defs.all_clients dcl140_2023_nov.Sync.Tellers.Defs.clients
made-le_example = made-le Bank.proc_sem 2 (Bank.hurried 0 ∷ []) {s = at_teller} refl
