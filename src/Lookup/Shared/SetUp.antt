-- ===== src/Lookup/Shared/SetUp.antt =====
-- lookup_proj/lookup6.c and shm_server.c: how both come to the shared memory and the semaphores.
use dcl140_2023_nov.Prelude.{
  ℕ, Bool, true, false, ◌≡◌, refl, Option, none, some, List, [], ◌∷◌, get_elem?, Bytes, codes, ◌||◌,
  if◌then◌else◌, ◌>>=◌,
}
use dcl140_2023_nov.Lookup.Record.{Code, unavail}
use dcl140_2023_nov.Lookup.Start.{Start, exits, serves, usage, no_key, die}

-- Whether `shmget`, `shmat` and `semget` of a client succeed. A failing `shmat` gives (void *)-1.
pub record Calls : Type 0 where
  pub shmget : Bool
  pub shmat : Bool
  pub semget : Bool

-- What a call of `lookup` comes to before it uses the semaphores: it is over, or goes on with an address
-- that is the memory's or not.
pub data Attached : Type 0 where
  over : Code → Attached
  goes_on : Bool → Attached

-- The set-up, and `first_time` behind it. At every later call the descriptors are unwritten, and their
-- use is a fault. The address is compared with NULL, which a failing `shmat` does not give.
unfoldable pub attach : Calls → Bool → Option Attached × Bool
attach c true = (
  if c.shmget
      then if c.semget then some (goes_on c.shmat) else some (over unavail)
      else some (over unavail),
  false,
)
attach c false = (none, false)

-- A sequence of calls of one process.
pub attempts : List Calls → Bool → List (Option Attached)
attempts [] b = []
attempts (c ∷ cs) b = (attach c b).0 ∷ attempts cs (attach c b).1

-- Of any calls of lookup6.c in a process, every one but the first uses variables that are unwritten.
attempts_lem :
    (c d : Calls) (cs : List Calls)
    → attempts (c ∷ d ∷ cs) true ≡ (attach c true).0 ∷ none ∷ attempts cs false
unfolding attempts attach
attempts_lem c d cs = refl

-- Whether the server's calls succeed; where `shmget` and `semget` fail, whether errno is EEXIST.
pub record ServerCalls : Type 0 where
  pub stat : Bytes → Bool
  pub shmget : Bool
  pub semget : Bool
  pub shmat : Bool
  pub semctl : Bool
  pub shm_exists : Bool
  pub sem_exists : Bool
  pub errno : ℕ

-- The start of the server, up to its loop: whether its address is the memory's.
unfoldable pub shm_server : ServerCalls → List Bytes → Option (Start Bool)
shm_server c (name ∷ path ∷ key ∷ []) =
    if c.stat path
    then if c.shmget || c.shm_exists
      then if c.semget || c.sem_exists
        then if c.semctl then some (serves c.shmat) else die (codes "Sem control")
        else some (exits (no_key key) c.errno)
      else some (exits (no_key key) c.errno)
    else die path
shm_server c argv = get_elem? argv 0 >>= λ name. some (exits (usage name) c.errno)
