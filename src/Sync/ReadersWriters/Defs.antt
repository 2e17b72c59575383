-- ===== src/Sync/ReadersWriters/Defs.antt =====
-- examples/mod11-synchronization/threadonly/rw.c, and procnthread/proc_rw.c behind its set-up: the threads of
-- one process, or of some processes over one shared area, that read and write under a lock. The output
-- and the delays are left out, and the calls on the locks succeed.
use dcl140_2023_nov.Prelude.{
  ℕ, zero, suc, ◌+◌, ◌-◌, ◌≡◌, Bool, true, false, Option, none, some, List, [], ◌∷◌, ◌++◌,
  get_elem?, set, ltb, ◌==◌, if◌then◌else◌, ◌>>=◌, ◌||◌, not, Bytes, codes, str_eq,
}

abbrev pub num_readers : ℕ
num_readers = 10

-- LOOP_MAX of rw.c, and of proc_rw.c.
abbrev pub loop_max : ℕ
loop_max = 50

abbrev pub proc_loop_max : ℕ
proc_loop_max = 10

-- The command line: whether the reader-writer lock is used, or the usage is printed.
unfoldable pub userwlock_of : List Bytes → Option Bool
userwlock_of (name ∷ arg ∷ args) =
    if str_eq arg (codes "rw")
    then some true
    else (if str_eq arg (codes "mutex") then some false else none)
userwlock_of _ = none

-- `rwlock` by who has it, and whether `mutex` is locked.
pub record Locks : Type 0 where
  pub reading : ℕ
  pub writing : Bool
  pub locked : Bool

-- The pthread calls; `none` where they block.
unfoldable pub rwlock_wrlock : Locks → Option Locks
rwlock_wrlock l =
    if l.writing || not (l.reading == 0) then none else some (record l { writing = true })

unfoldable pub rwlock_rdlock : Locks → Option Locks
rwlock_rdlock l = if l.writing then none else some (record l { reading = l.reading + 1 })

unfoldable pub rwlock_unlock : Locks → Locks
rwlock_unlock l =
    if l.writing then record l { writing = false } else record l { reading = l.reading - 1 }

unfoldable pub mutex_lock : Locks → Option Locks
mutex_lock l = if l.locked then none else some (record l { locked = true })

unfoldable pub mutex_unlock : Locks → Locks
mutex_unlock l = record l { locked = false }

pub data Role : Type 0 where
  reader writer : Role

-- Where a thread is: before the test of its loop, its lock, and its unlock; or it has ended.
pub data Pc : Type 0 where
  test lock unlock ended : Pc

pub record Thread : Type 0 where
  pub role : Role
  pub pc : Pc
  pub loop_count : ℕ

-- What `readerMain` and `writerMain` lock, by `userwlock`.
unfoldable pub get_lock : Bool → Role → Locks → Option Locks
unfolding rwlock_wrlock rwlock_rdlock mutex_lock
get_lock true writer l = rwlock_wrlock l
get_lock true reader l = rwlock_rdlock l
get_lock false _ l = mutex_lock l

unfoldable pub release_lock : Bool → Locks → Locks
unfolding rwlock_unlock mutex_unlock
release_lock true l = rwlock_unlock l
release_lock false l = mutex_unlock l

pub record System : Type 0 where
  pub locks : Locks
  pub threads : List Thread

abbrev pub put : ℕ → Thread → Locks → System → System
put i t l s = record { locks = l; threads = set s.threads i t }

unfoldable pub by_pc : ℕ → Bool → ℕ → System → Thread → Pc → Option System
by_pc most u i s t test =
    some (put i (record t { pc = if ltb t.loop_count most then lock else ended }) s.locks s)
by_pc most u i s t lock =
    get_lock u t.role s.locks >>= λ l. some (put i (record t { pc = unlock }) l s)
by_pc most u i s t unlock =
    some (put i (record t { pc = test; loop_count = t.loop_count + 1 }) (release_lock u s.locks) s)
by_pc most u i s t ended = none

-- A step of thread `i`, whose loop has `most` rounds.
unfoldable pub step : ℕ → Bool → ℕ → System → Option System
step most u i s = get_elem? s.threads i >>= λ t. by_pc most u i s t t.pc

abbrev pub fresh : Role → Thread
fresh r = record { role = r; pc = test; loop_count = 0 }

unfoldable pub readers : ℕ → List Thread
readers zero = []
readers (suc n) = fresh reader ∷ readers n

-- The threads of a process: the readers, and the writer as the last of them.
unfoldable pub process_threads : List Thread
unfolding readers
process_threads = readers num_readers ++ fresh writer ∷ []

-- The threads of `n` processes.
unfoldable pub all_threads : ℕ → List Thread
unfolding process_threads
all_threads zero = []
all_threads (suc n) = process_threads ++ all_threads n

unfoldable pub initial : ℕ → System
unfolding all_threads
initial n = record {
  locks = record { reading = 0; writing = false; locked = false };
  threads = all_threads n;
}

-- The states that some processes come to, with how many steps they made.
pub data Reach (most processes : ℕ) (u : Bool) : ℕ → System → Type 0 where
  start : Reach most processes u 0 (initial processes)
  next :
      {n : ℕ} {s t : System} (i : ℕ)
      → Reach most processes u n s
      → step most u i s ≡ some t
      → Reach most processes u (suc n) t
