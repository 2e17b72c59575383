-- ===== src/Sync/Counter/Defs.antt =====
-- examples/mod11-synchronization/threadonly/mutex.c: two threads that count one variable up, with a
-- mutex around it (`sync`) or without.
use dcl140_2023_nov.Prelude.{
  ℕ, ◌+◌, ◌-◌, ◌≡◌, Bool, true, false, Option, none, some, ◌==◌, if◌then◌else◌, ◌>>=◌,
}

-- LOOP_MAX
abbrev pub loop_max : ℕ
loop_max = 20

pub data Who : Type 0 where
  first second : Who

-- Where a thread is in its loop: at its top, before `temp = commonCounter`, before
-- `commonCounter = temp + 1`, and behind it.
pub data Pc : Type 0 where
  top load store done : Pc

-- `todo` are the rounds left, with the one that the thread is in.
pub record Thread : Type 0 where
  pub pc : Pc
  pub todo : ℕ
  pub temp : ℕ

-- `commonCounter`, the owner of `mutex`, and the threads.
pub record Counter : Type 0 where
  pub common : ℕ
  pub owner : Option Who
  pub one : Thread
  pub two : Thread

abbrev fresh : Thread
fresh = record { pc = top; todo = loop_max; temp = 0 }

abbrev pub initial : Counter
initial = record { common = 0; owner = none; one = fresh; two = fresh }

abbrev pub thread : Who → Counter → Thread
thread first s = s.one
thread second s = s.two

abbrev pub put : Who → Thread → Counter → Counter
put first t s = record s { one = t }
put second t s = record s { two = t }

-- `if (synchronized) pthread_mutex_lock(&mutex)`: possible only when the mutex is free.
abbrev lock : Bool → Who → Counter → Option Counter
lock false w s = some s
lock true w s = elim s.owner [ none ↦ some (record s { owner = some w }) | some _ ↦ none ]

abbrev unlock : Bool → Counter → Counter
unlock false s = s
unlock true s = record s { owner = none }

-- What a thread does next.
unfoldable pub step : Bool → Who → Counter → Option Counter
step sync w s =
    let t = thread w s in
    elim t.pc [
      | top ↦
          if t.todo == 0
          then none
          else lock sync w s >>= λ r. some (put w (record t { pc = load }) r)
      | load ↦ some (put w (record t { pc = store; temp = s.common }) s)
      | store ↦ some (put w (record t { pc = done }) (record s { common = t.temp + 1 }))
      | done ↦ some (unlock sync (put w (record t { pc = top; todo = t.todo - 1 }) s))
    ]

pub data Reach (sync : Bool) : Counter → Type 0 where
  start : Reach sync initial
  next : {s t : Counter} (w : Who) → Reach sync s → step sync w s ≡ some t → Reach sync t

-- Both threads have left their loops, and `main` has joined them.
pub record Joined (s : Counter) : Type 0 where
  pub one_out : s.one.pc ≡ top
  pub one_all : s.one.todo ≡ 0
  pub two_out : s.two.pc ≡ top
  pub two_all : s.two.todo ≡ 0
