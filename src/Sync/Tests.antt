-- ===== src/Sync/Tests.antt =====
-- The threads in concrete states.
mod Processes
mod Counting
use dcl140_2023_nov.Prelude.{arith, ℕ, ◌≡◌, refl, ◌⊎◌, Option, none, some, List, [], ◌∷◌}
use dcl140_2023_nov.Sync.Stack.Defs.{
  System, initial, Reach, start, next, step, push_lock, push_test,
}
use dcl140_2023_nov.Sync.Stack.Invariant.{Inv}
use dcl140_2023_nov.Sync.Stack.Progress.{Runs, Finished, Reach-Runs}
use dcl140_2023_nov.Sync.Stack.Contents.{LastInFirstOut, step-LastInFirstOut}
use dcl140_2023_nov.Prelude.{◌+◌, ◌*◌, ◌≤◌, zero, suc, true, false}
use dcl140_2023_nov.Sync.Counter.Defs.{Counter, Joined, loop_max, first, second, top}
use dcl140_2023_nov.Sync.Counter.Defs as Mutex
use dcl140_2023_nov.Sync.Counter.Total.{Reach-total}
use dcl140_2023_nov.Sync.Tellers.Defs.{sem, is_asleep, patient}
use dcl140_2023_nov.Sync.Sums.{total}
use dcl140_2023_nov.Sync.Tellers.Defs as Tellers
use dcl140_2023_nov.Sync.Jobs.Defs as Jobs
use dcl140_2023_nov.Sync.Jobs.Defs.{num_trucks, num_movers, amt_insur}
use dcl140_2023_nov.Sync.Jobs.Resources.{trucks_of, movers_of, insurance_of, Reach-resources}
use dcl140_2023_nov.Sync.Jobs.Progress as JobsProgress
use dcl140_2023_nov.Sync.Jobs.Progress.{is_requesting, is_running, has_leaked, Reach-calls}
use dcl140_2023_nov.Sync.Tellers.Served.{is_served, is_woken}

abbrev empty_buffer : List ℕ
empty_buffer = 0 ∷ 0 ∷ 0 ∷ []

abbrev get : Option System → System
get (some s) = s
get none = initial empty_buffer

-- After the producer has taken the mutex with the character `A`, and after its test.
abbrev locked : System
unfolding step
locked = get (step (push_lock 65) (initial empty_buffer))

abbrev tested : System
unfolding step locked
tested = get (step push_test locked)

locked-Reach : Reach locked
unfolding step locked
locked-Reach = next (push_lock 65) (start empty_buffer refl) refl

Reach-Runs_example : Runs locked ⊎ (Finished locked × (locked.index ≡ 0))
Reach-Runs_example = Reach-Runs locked-Reach

tested_lem : step push_test locked ≡ some tested
unfolding step
tested_lem = refl

step-LastInFirstOut_example : LastInFirstOut push_test locked tested
step-LastInFirstOut_example = step-LastInFirstOut push_test locked-Reach tested_lem

-- Both threads between two rounds.
abbrev at_rest : (common todo_one todo_two temp_one temp_two : ℕ) → Counter
at_rest c n m t u = record {
  common = c;
  owner = none;
  one = record { pc = top; todo = n; temp = t };
  two = record { pc = top; todo = m; temp = u };
}

-- All rounds of the first thread, and all rounds of the second.
first_rounds :
    (n c m t u : ℕ)
    → Mutex.Reach true (at_rest c n m t u)
    → (d : ℕ) × (v : ℕ) × Mutex.Reach true (at_rest d 0 m v u)
unfolding dcl140_2023_nov.Sync.Counter.Defs.step
first_rounds zero c m t u r = (c, t, r)
first_rounds (suc n) c m t u r =
    let e : Mutex.step true first (at_rest c (suc n) m t u)
        ≡ some (record (at_rest c (suc n) m t u) {
          owner = some first;
          one = record { pc = Mutex.load; todo = suc n; temp = t };
        }) =
      ground arith in
    let f : Mutex.step true first (record (at_rest (c + 1) (suc n) m c u) {
      owner = some first;
      one = record { pc = Mutex.done; todo = suc n; temp = c };
    })
        ≡ some (at_rest (c + 1) n m c u) =
      ground arith in
    first_rounds n (c + 1) m c u
      (Mutex.next first (Mutex.next first (Mutex.next first (Mutex.next first r e) refl) refl) f)

second_rounds :
    (m c n t u : ℕ)
    → Mutex.Reach true (at_rest c n m t u)
    → (d : ℕ) × (v : ℕ) × Mutex.Reach true (at_rest d n 0 t v)
unfolding dcl140_2023_nov.Sync.Counter.Defs.step
second_rounds zero c n t u r = (c, u, r)
second_rounds (suc m) c n t u r =
    let e : Mutex.step true second (at_rest c n (suc m) t u)
        ≡ some (record (at_rest c n (suc m) t u) {
          owner = some second;
          two = record { pc = Mutex.load; todo = suc m; temp = u };
        }) =
      ground arith in
    let f : Mutex.step true second (record (at_rest (c + 1) n (suc m) t c) {
      owner = some second;
      two = record { pc = Mutex.done; todo = suc m; temp = c };
    })
        ≡ some (at_rest (c + 1) n m t c) =
      ground arith in
    second_rounds m (c + 1) n t c (
      Mutex.next second (Mutex.next second (Mutex.next second (Mutex.next second r e) refl) refl) f)

abbrev first_done : (d : ℕ) × (v : ℕ) × Mutex.Reach true (at_rest d 0 loop_max v 0)
first_done = first_rounds loop_max 0 loop_max 0 0 Mutex.start

abbrev both_done : (d : ℕ) × (v : ℕ) × Mutex.Reach true (at_rest d 0 0 first_done.1 v)
both_done = second_rounds loop_max first_done.0 0 first_done.1 0 first_done.2

Reach-total_example : both_done.0 ≡ 2 * loop_max
Reach-total_example =
    Reach-total both_done.2
      (record { one_out = refl; one_all = refl; two_out = refl; two_all = refl })

abbrev one_reserved : Option Jobs.Company
one_reserved = Jobs.step (Jobs.reserves 0) Jobs.initial

abbrev in_company : Option Jobs.Company → Jobs.Company
in_company none = Jobs.initial
in_company (some s) = s

abbrev reserved : Jobs.Company
reserved = in_company one_reserved

reserved-Reach : Jobs.Reach reserved
unfolding dcl140_2023_nov.Sync.Jobs.Defs.step dcl140_2023_nov.Sync.Jobs.Defs.initial Jobs.by_phase
    Jobs.reserve
reserved-Reach = Jobs.next (Jobs.reserves 0) Jobs.start refl

Reach-resources_example :
    (reserved.group.truck + total trucks_of reserved.threads ≡ num_trucks)
    × (reserved.group.mover + total movers_of reserved.threads ≡ num_movers)
    × (reserved.group.insur + total insurance_of reserved.threads ≡ amt_insur)
Reach-resources_example = Reach-resources reserved-Reach

reserved_lem : total has_leaked reserved.threads ≡ 0
unfolding dcl140_2023_nov.Sync.Jobs.Defs.step dcl140_2023_nov.Sync.Jobs.Defs.initial Jobs.by_phase
    Jobs.reserve total
reserved_lem = refl

Reach-calls_example :
    JobsProgress.Runs reserved
    ⊎ ((total is_requesting reserved.threads ≡ 0) × (total is_running reserved.threads ≡ 0))
Reach-calls_example = Reach-calls reserved-Reach reserved_lem
