-- ===== src/Sync/Tellers/Defs.antt =====
-- examples/mod11-synchronization/threadonly/sem.c, and procnthread/proc_sem.c behind its set-up, as they
-- are compiled (REPORT_NUM_SEM_FREE): every
-- call on the semaphore is made with `semMutex` held, so what a client does between taking the mutex
-- and leaving it, or waiting, is one step.
use dcl140_2023_nov.Sync.Sums.{total}
use dcl140_2023_nov.Prelude.{
  ℕ, zero, suc, ◌+◌, ◌-◌, ◌≡◌, Option, none, some, List, [], ◌∷◌, ◌++◌, get_elem?, set, ◌==◌,
  if◌then◌else◌, ◌>>=◌,
}

-- NUM_CLIENTS and NUM_TELLERS of a program, which proc_sem.c runs as several processes.
pub record Program : Type 0 where
  pub num_clients : ℕ
  pub num_tellers : ℕ

abbrev pub sem : Program
sem = record { num_clients = 25; num_tellers = 5 }

abbrev pub proc_sem : Program
proc_sem = record { num_clients = 25; num_tellers = 4 }

-- A client that has not taken the mutex yet; in `pthread_cond_wait`; woken there; with a teller; or
-- at its end, with or without having been served.
pub data Client : Type 0 where
  arriving asleep woken served left skipped : Client

-- The value of `bankLine`, and the clients by their numbers.
pub record Bank : Type 0 where
  pub tellers : ℕ
  pub clients : List Client

unfoldable pub clients : ℕ → List Client
clients zero = []
clients (suc n) = arriving ∷ clients n

-- The clients of some processes.
unfoldable pub all_clients : Program → ℕ → List Client
unfolding clients
all_clients g zero = []
all_clients g (suc n) = clients g.num_clients ++ all_clients g n

abbrev pub initial : Program → ℕ → Bank
initial g n = record { tellers = g.num_tellers; clients = all_clients g n }

abbrev pub move : ℕ → Client → Bank → Bank
move i c s = record s { clients = set s.clients i c }

-- `sem_trywait`, and what the client does where it fails.
abbrev pub try_wait : ℕ → Client → Bank → Bank
try_wait i otherwise s =
    if s.tellers == 0
    then move i otherwise s
    else move i served (record s { tellers = s.tellers - 1 })

abbrev pub is_asleep : Client → ℕ
is_asleep asleep = 1
is_asleep arriving = 0
is_asleep woken = 0
is_asleep served = 0
is_asleep left = 0
is_asleep skipped = 0

-- `sem_post`, and `pthread_cond_signal`, which wakes a client that sleeps, if one does.
abbrev pub post : ℕ → Bank → Bank
post i s = move i left (record s { tellers = s.tellers + 1 })

unfoldable pub signal : Option ℕ → Bank → Option Bank
signal none s = if total is_asleep s.clients == 0 then some s else none
signal (some j) s =
    get_elem? s.clients j >>= λ c. elim c [ asleep ↦ some (move j woken s) | _ ↦ none ]

pub data Move : Type 0 where
  hurried patient again spurious : ℕ → Move
  finish : ℕ → Option ℕ → Move

-- One step of client `i`; `spurious` ends its wait with no signal.
unfoldable pub by_client : Move → Bank → Client → Option Bank
unfolding signal
by_client (hurried i) s arriving = some (try_wait i skipped s)
by_client (patient i) s arriving = some (try_wait i asleep s)
by_client (again i) s woken = some (try_wait i asleep s)
by_client (spurious i) s asleep = some (move i woken s)
by_client (finish i w) s served = signal w (post i s)
by_client _ s _ = none

abbrev pub number : Move → ℕ
number (hurried i) = i
number (patient i) = i
number (again i) = i
number (spurious i) = i
number (finish i w) = i

unfoldable pub step : Move → Bank → Option Bank
unfolding by_client
step m s = get_elem? s.clients (number m) >>= by_client m s

-- The states of `n` processes of a program.
pub data Reach (g : Program) (n : ℕ) : Bank → Type 0 where
  start : Reach g n (initial g n)
  next : {s t : Bank} (m : Move) → Reach g n s → step m s ≡ some t → Reach g n t
