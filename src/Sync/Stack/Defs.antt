-- ===== src/Sync/Stack/Defs.antt =====
-- examples/mod11-synchronization/threadonly/stack.c and stackMain.c: the producer and the consumer,
-- a step at a time. The mutex makes what a thread does between two calls of it or of the condition
-- variable one step. A wait may end with no signal, as POSIX allows.
use dcl140_2023_nov.Prelude.{
  ℕ, ◌+◌, ◌-◌, ◌≡◌, Option, none, some, List, length, get_elem?, set, ◌==◌, if◌then◌else◌, ◌>>=◌,
}

-- STACK_SIZE and MAX_COUNT.
abbrev pub stack_size : ℕ
stack_size = 3

abbrev pub max_count : ℕ
max_count = 25

pub data Role : Type 0 where
  producer consumer : Role

-- Where a thread is in `push` or `pop`: between two calls, at the test of its loop, in
-- `pthread_cond_wait`, woken there and without the mutex yet, and before the signal and the unlock.
pub data Pc : Type 0 where
  outside test asleep woken signal unlock : Pc

-- `todo` are the rounds left to a thread's main loop, with the one that it is in; `char` is
-- `oneChar`.
pub record Thread : Type 0 where
  pub pc : Pc
  pub todo : ℕ
  pub char : ℕ

-- `buffer`, `index`, the owner of `mutex`, and the threads.
pub record System : Type 0 where
  pub buffer : List ℕ
  pub index : ℕ
  pub owner : Option Role
  pub pusher : Thread
  pub popper : Thread

abbrev pub initial : List ℕ → System
initial b = record {
  buffer = b;
  index = 0;
  owner = none;
  pusher = record { pc = outside; todo = max_count; char = 0 };
  popper = record { pc = outside; todo = max_count; char = 0 };
}

abbrev pub at_pc : Pc → Thread → Thread
at_pc p t = record t { pc = p }

-- `pthread_cond_signal`: a thread that sleeps is woken.
abbrev wake : Thread → Thread
wake t = elim t.pc [ asleep ↦ at_pc woken t | _ ↦ t ]

-- A call is made only while rounds are left.
abbrev begin : Thread → ℕ → Option Thread
begin t c = elim t.pc [
  | outside ↦ if t.todo == 0 then none else some (record t { pc = test; char = c })
  | _ ↦ none
]

abbrev again : Thread → Option Thread
again t = elim t.pc [ woken ↦ some (at_pc test t) | _ ↦ none ]

abbrev spurious : Thread → Option Thread
spurious t = elim t.pc [ asleep ↦ some (at_pc woken t) | _ ↦ none ]

abbrev leave : Thread → Option Thread
leave t = elim t.pc [ unlock ↦ some (record t { pc = outside; todo = t.todo - 1 }) | _ ↦ none ]

-- `buffer[index++] = oneChar`. A write outside the buffer is a step as well, which leaves the index
-- above the size of the buffer.
abbrev pub pushed : System → System
pushed s = record s {
  buffer = set s.buffer s.index s.pusher.char;
  index = s.index + 1;
  pusher = at_pc signal s.pusher;
}

-- `toReturn = buffer[--index]`
abbrev pub popped : System → Option System
popped s = get_elem? s.buffer (s.index - 1) >>= λ c.
    some (record s { index = s.index - 1; popper = record s.popper { pc = signal; char = c } })

pub data Move : Type 0 where
  push_lock : ℕ → Move
  push_test push_relock push_spurious push_signal push_unlock : Move
  pop_lock pop_test pop_relock pop_spurious pop_signal pop_unlock : Move

-- The mutex is taken only when it is free.
abbrev free : Option Role → Option System → Option System
free none t = t
free (some r) t = none

unfoldable pub step : Move → System → Option System
step (push_lock c) s =
    free s.owner (begin s.pusher c >>= λ t. some (record s { owner = some producer; pusher = t }))
step push_test s = elim s.pusher.pc [
  | test ↦
      if s.index == stack_size
      then some (record s { owner = none; pusher = at_pc asleep s.pusher })
      else some (pushed s)
  | _ ↦ none
]
step push_relock s =
    free s.owner (again s.pusher >>= λ t. some (record s { owner = some producer; pusher = t }))
step push_spurious s = spurious s.pusher >>= λ t. some (record s { pusher = t })
step push_signal s = elim s.pusher.pc [
  | signal ↦ some (record s { pusher = at_pc unlock s.pusher; popper = wake s.popper })
  | _ ↦ none
]
step push_unlock s = leave s.pusher >>= λ t. some (record s { owner = none; pusher = t })
step pop_lock s =
    free s.owner
      (begin s.popper s.popper.char >>= λ t. some (record s { owner = some consumer; popper = t }))
step pop_test s = elim s.popper.pc [
  | test ↦
      if s.index == 0
      then some (record s { owner = none; popper = at_pc asleep s.popper })
      else popped s
  | _ ↦ none
]
step pop_relock s =
    free s.owner (again s.popper >>= λ t. some (record s { owner = some consumer; popper = t }))
step pop_spurious s = spurious s.popper >>= λ t. some (record s { popper = t })
step pop_signal s = elim s.popper.pc [
  | signal ↦ some (record s { popper = at_pc unlock s.popper; pusher = wake s.pusher })
  | _ ↦ none
]
step pop_unlock s = leave s.popper >>= λ t. some (record s { owner = none; popper = t })

-- The states of the program, whatever the buffer held at first and the schedule is.
pub data Reach : System → Type 0 where
  start : (b : List ℕ) → length b ≡ stack_size → Reach (initial b)
  next : {s t : System} (m : Move) → Reach s → step m s ≡ some t → Reach t
