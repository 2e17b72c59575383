-- ===== src/Sync/Jobs/Defs.antt =====
-- examples/mod11-synchronization/threadonly/ipcsem.c: the jobs of a moving company, which take all
-- their resources by one call on a group of three System V semaphores.
use dcl140_2023_nov.Prelude.{
  ℕ, zero, suc, ◌+◌, ◌-◌, ◌%◌, ◌≡◌, Option, none, some, List, [], ◌∷◌, ◌++◌, get_elem?, set, ltb,
  ◌==◌, if◌then◌else◌, ◌>>=◌,
}

-- `negsuc n` is -(n + 1).
pub data ℤ : Type 0 where
  pos : ℕ → ℤ
  negsuc : ℕ → ℤ

unfoldable pub neg : ℕ → ℤ
neg zero = pos 0
neg (suc n) = negsuc n

-- `struct job`, and `jobTable`.
pub record Job : Type 0 where
  pub trucks : ℕ
  pub movers : ℕ
  pub insurance : ℕ

abbrev pub job_table : List Job
job_table =
    record { trucks = 4; movers = 5; insurance = 250 }
    ∷ record { trucks = 1; movers = 2; insurance = 500 }
    ∷ record { trucks = 3; movers = 5; insurance = 1000 }
    ∷ record { trucks = 2; movers = 8; insurance = 250 }
    ∷ []

abbrev pub num_threads : ℕ
num_threads = 10

abbrev pub num_trucks : ℕ
num_trucks = 5

-- The comment at the head of the file speaks of 15 movers.
abbrev pub num_movers : ℕ
num_movers = 12

abbrev pub amt_insur : ℕ
amt_insur = 1000

-- The values of the semaphores TRUCK_SEM, MOVER_SEM and INSUR_SEM.
pub record Group : Type 0 where
  pub truck : ℕ
  pub mover : ℕ
  pub insur : ℕ

-- One operation of `semop`: `none` where it has to wait.
unfoldable pub sem_op : ℤ → ℕ → Option ℕ
sem_op (pos zero) v = if v == 0 then some v else none
sem_op (pos (suc n)) v = some (v + suc n)
sem_op (negsuc n) v = if ltb n v then some (v - suc n) else none

-- `semop` on the group: all three operations, or none of them.
unfoldable pub play_with_semaphores : Group → ℤ → ℤ → ℤ → Option Group
unfolding sem_op
play_with_semaphores g trucks movers insurance = sem_op trucks g.truck >>= λ t.
    sem_op movers g.mover >>= λ m.
    sem_op insurance g.insur >>= λ i. some (record { truck = t; mover = m; insur = i })

unfoldable pub reserve : Group → Job → Option Group
unfolding play_with_semaphores neg
reserve g j = play_with_semaphores g (neg j.trucks) (neg j.movers) (neg j.insurance)

unfoldable pub release : Group → Job → Option Group
unfolding play_with_semaphores
release g j = play_with_semaphores g (pos j.trucks) (pos j.movers) (pos j.insurance)

-- Where a thread is: before it has its resources; with them; behind their release; ended since the
-- reservation failed; and ended with its resources, since the release failed.
pub data Phase : Type 0 where
  requesting running done refused leaked : Phase

pub record Thread : Type 0 where
  pub job : Job
  pub phase : Phase

-- The semaphores and the threads.
pub record Company : Type 0 where
  pub group : Group
  pub threads : List Thread

-- A step of a thread; `semop` may also fail with an error.
pub data Move : Type 0 where
  reserves releases : ℕ → Move
  reserve_fails release_fails : ℕ → Move

abbrev pub number : Move → ℕ
number (reserves i) = i
number (releases i) = i
number (reserve_fails i) = i
number (release_fails i) = i

abbrev pub enter : ℕ → Phase → Thread → Company → Company
enter i p t s = record s { threads = set s.threads i (record t { phase = p }) }

-- `threadMain` in a phase.
unfoldable pub by_phase : Move → Company → Thread → Phase → Option Company
by_phase (reserves i) s t requesting =
    reserve s.group t.job >>= λ g. some (enter i running t (record s { group = g }))
by_phase (releases i) s t running =
    release s.group t.job >>= λ g. some (enter i done t (record s { group = g }))
by_phase (reserve_fails i) s t requesting = some (enter i refused t s)
by_phase (release_fails i) s t running = some (enter i leaked t s)
by_phase _ s t _ = none

unfoldable pub step : Move → Company → Option Company
step m s = get_elem? s.threads (number m) >>= λ t. by_phase m s t t.phase

-- The threads that `main` starts: thread `count` has the job `count % numJobs`.
start_threads : ℕ → List Thread
start_threads zero = []
start_threads (suc n) = start_threads n ++ (elim (get_elem? job_table (n % 4)) [
  | none ↦ []
  | some j ↦ record { job = j; phase = requesting } ∷ []
])

unfoldable pub initial : Company
unfolding start_threads
initial = record {
  group = record { truck = num_trucks; mover = num_movers; insur = amt_insur };
  threads = start_threads num_threads;
}

pub data Reach : Company → Type 0 where
  start : Reach initial
  next : {s t : Company} (m : Move) → Reach s → step m s ≡ some t → Reach t
