-- ===== src/Sync/SharedStack/Defs.antt =====
-- examples/mod11-synchronization/procnthread/proc_stack.c behind its set-up, and proc_stackMain.c: the
-- producers and the consumers of some processes. Every call works with the mutex held, so what a thread
-- does between taking the mutex and leaving it, or waiting, is one step. The output and the delays are
-- left out.
use std.Path.{subst}
use mathlib.Core.Option.{some-injective}
use dcl140_2023_nov.Prelude.{
  >>=-eq-some, ℕ, zero, suc, ◌+◌, ◌-◌, ◌≡◌, Option, none, some, List, [], ◌∷◌, length, get_elem?,
  set, ◌==◌, if◌then◌else◌, ◌>>=◌,
}
use dcl140_2023_nov.Sync.Sums.{total}

-- STACK_SIZE and MAX_COUNT.
abbrev pub stack_size : ℕ
stack_size = 3

abbrev pub max_count : ℕ
max_count = 25

pub data Role : Type 0 where
  producer consumer : Role

-- Where a thread is: without the mutex in front of a call, in `pthread_cond_wait`, or woken there.
pub data Pc : Type 0 where
  outside asleep woken : Pc

-- `todo` are the rounds that are left to the main loop, with the one that a call is made in.
pub record Thread : Type 0 where
  pub role : Role
  pub pc : Pc
  pub todo : ℕ
  pub char : ℕ

-- `stack`, and the threads of all processes.
pub record System : Type 0 where
  pub buffer : List ℕ
  pub index : ℕ
  pub threads : List Thread

abbrev pub is_asleep : Thread → ℕ
is_asleep t = elim t.pc [ asleep ↦ 1 | _ ↦ 0 ]

-- Thread `i` is now `t`.
abbrev pub move : ℕ → Thread → System → System
move i t s = record s { threads = set s.threads i t }

-- `pthread_cond_signal`: it wakes a thread that sleeps, any one of them, if one does.
unfoldable pub wake : ℕ → System → Thread → Pc → Option System
wake j s t asleep = some (move j (record t { pc = woken }) s)
wake j s t _ = none

unfoldable pub signal : Option ℕ → System → Option System
unfolding wake
signal none s = if total is_asleep s.threads == 0 then some s else none
signal (some j) s = get_elem? s.threads j >>= λ t. wake j s t t.pc

-- The call is over, and with it a round of the main loop.
abbrev pub over : Thread → Thread
over t = record t { pc = outside; todo = t.todo - 1 }

-- `pthread_cond_wait`
abbrev pub sleep : ℕ → Thread → System → System
sleep i t s = move i (record t { pc = asleep }) s

-- `stack->buffer[stack->index++] = oneChar`. A write outside the buffer is possible as well, and leaves
-- the index above the size of the buffer.
abbrev pub pushed : ℕ → Thread → System → System
pushed i t s =
    move i (over t) (record s { buffer = set s.buffer s.index t.char; index = s.index + 1 })

-- `toReturn = stack->buffer[--(stack->index)]`
unfoldable pub popped : ℕ → Thread → System → Option System
popped i t s = get_elem? s.buffer (s.index - 1) >>= λ c.
    some (move i (over (record t { char = c })) (record s { index = s.index - 1 }))

-- `push` and `pop` with the mutex held, and which thread the signal wakes.
unfoldable pub call : ℕ → Option ℕ → System → Thread → Role → Option System
unfolding popped signal
call i w s t producer =
    if s.index == stack_size then some (sleep i t s) else signal w (pushed i t s)
call i w s t consumer = if s.index == 0 then some (sleep i t s) else (popped i t s >>= signal w)

pub data Move : Type 0 where
  calls : ℕ → ℕ → Option ℕ → Move
  spurious : ℕ → Move

-- What a thread is about to push; a consumer's character is unwritten.
abbrev pub with_char : ℕ → Thread → Thread
with_char c t = elim t.role [ producer ↦ record t { char = c } | consumer ↦ t ]

-- A thread takes the mutex, for a new call with the character `c` or behind a wait.
unfoldable pub enter : ℕ → ℕ → Option ℕ → System → Thread → Pc → Option System
unfolding call
enter i c w s t outside = if t.todo == 0 then none else call i w s (with_char c t) t.role
enter i c w s t woken = call i w s t t.role
enter i c w s t asleep = none

-- A step of a thread; a wait may end with no signal.
unfoldable pub step : Move → System → Option System
unfolding enter wake
step (calls i c w) s = get_elem? s.threads i >>= λ t. enter i c w s t t.pc
step (spurious i) s = get_elem? s.threads i >>= λ t. wake i s t t.pc

abbrev pub fresh : Role → Thread
fresh r = record { role = r; pc = outside; todo = max_count; char = 0 }

-- The threads of `n` processes.
unfoldable pub threads_of : ℕ → List Thread
threads_of zero = []
threads_of (suc n) = fresh producer ∷ fresh consumer ∷ threads_of n

abbrev pub initial : ℕ → List ℕ → System
initial n b = record { buffer = b; index = 0; threads = threads_of n }

pub data Reach (n : ℕ) : System → Type 0 where
  start : (b : List ℕ) → length b ≡ stack_size → Reach n (initial n b)
  next : {s t : System} (m : Move) → Reach n s → step m s ≡ some t → Reach n t

-- A sequence of moves.
unfoldable pub run : List Move → System → Option System
run [] s = some s
run (m ∷ ms) s = step m s >>= run ms

pub Reach-run : {n : ℕ} (ms : List Move) {s t : System} → Reach n s → run ms s ≡ some t → Reach n t
unfolding run
Reach-run {n} [] r e = subst (Reach n) (some-injective _ _ e) r
Reach-run (m ∷ ms) {s} r e =
    let (t, p, q) = >>=-eq-some (step m s) (run ms) e in Reach-run ms (next m r p) q
