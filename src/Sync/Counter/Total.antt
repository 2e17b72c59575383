-- ===== src/Sync/Counter/Total.antt =====
-- What the counter is at the end.
use dcl140_2023_nov.Prelude.{
  ℕ, ◌+◌, ◌*◌, ◌≤◌, ◌<◌, ◌≡◌, ◌⊎◌, Bool, true, false, Option, none, some, arith,
}
use dcl140_2023_nov.Sync.Counter.Defs.{
  loop_max, Who, first, second, Pc, top, load, store, done, Counter, step, Reach, start, next,
  Joined,
}

abbrev inside : Pc → Bool
inside top = false
inside load = true
inside store = true
inside done = true

abbrev counted : Pc → ℕ
counted done = 1
counted top = 0
counted load = 0
counted store = 0

abbrev owned_by : Who → Option Who → Bool
owned_by first (some first) = true
owned_by second (some second) = true
owned_by first (some second) = false
owned_by second (some first) = false
owned_by w none = false

record Counts (s : Counter) : Type 0 where
  one_owns : inside s.one.pc ≡ owned_by first s.owner
  two_owns : inside s.two.pc ≡ owned_by second s.owner
  one_round : (s.one.pc ≡ top) ⊎ (0 < s.one.todo)
  two_round : (s.two.pc ≡ top) ⊎ (0 < s.two.todo)
  one_temp : s.one.pc ≡ store → s.one.temp ≡ s.common
  two_temp : s.two.pc ≡ store → s.two.temp ≡ s.common
  total : s.common + s.one.todo + s.two.todo ≡ 2 * loop_max + counted s.one.pc + counted s.two.pc

step-Counts : (w : Who) {s t : Counter} → Counts s → step true w s ≡ some t → Counts t
unfolding step
step-Counts first {s} {t} v h = ground arith
step-Counts second {s} {t} v h = ground arith

Reach-Counts : {s : Counter} → Reach true s → Counts s
Reach-Counts start = ground arith
Reach-Counts (next w r e) = step-Counts w (Reach-Counts r) e

-- With the mutex the counter is the number of all rounds once both threads have ended, whatever
-- the schedule is: no increment is lost.
pub Reach-total : {s : Counter} → Reach true s → Joined s → s.common ≡ 2 * loop_max
Reach-total {s} r j = let v = Reach-Counts r in ground (arith, v.total)

record AtMost (s : Counter) : Type 0 where
  one_round : (s.one.pc ≡ top) ⊎ (0 < s.one.todo)
  two_round : (s.two.pc ≡ top) ⊎ (0 < s.two.todo)
  total : s.common + s.one.todo + s.two.todo ≤ 2 * loop_max + counted s.one.pc + counted s.two.pc
  one_temp :
      s.one.pc ≡ store → s.one.temp + s.one.todo + s.two.todo ≤ 2 * loop_max + counted s.two.pc
  two_temp :
      s.two.pc ≡ store → s.two.temp + s.one.todo + s.two.todo ≤ 2 * loop_max + counted s.one.pc

step-AtMost : (w : Who) {s t : Counter} → AtMost s → step false w s ≡ some t → AtMost t
unfolding step
step-AtMost first {s} {t} v h = ground arith
step-AtMost second {s} {t} v h = ground arith

Reach-AtMost : {s : Counter} → Reach false s → AtMost s
Reach-AtMost start = ground arith
Reach-AtMost (next w r e) = step-AtMost w (Reach-AtMost r) e

-- Without the mutex the counter is never above the number of all rounds.
Reach-bound : {s : Counter} → Reach false s → s.common ≤ 2 * loop_max
Reach-bound {s} r = let v = Reach-AtMost r in ground (arith, v.total, v.one_round, v.two_round)
