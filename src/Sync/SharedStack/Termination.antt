-- ===== src/Sync/SharedStack/Termination.antt =====
-- How many calls the threads of a shared stack make.
use std.Path.{subst}
use mathlib.Core.Option.{some-injective}
use dcl140_2023_nov.Prelude.{
  ℕ, zero, suc, ◌+◌, ◌-◌, ◌*◌, ◌≤◌, ◌<◌, ◌≡◌, refl, inl, inr, ap, sym, Option, none, some, List, [],
  ◌∷◌, get_elem?, set, length, arith, ◌==◌, >>=-eq-some, Bool-cases,
}
use dcl140_2023_nov.Sync.Sums.{total, total-set, All-get_elem?}
use dcl140_2023_nov.Sync.SharedStack.Defs.{
  stack_size, Role, producer, consumer, Pc, outside, asleep, woken, Thread, System, is_asleep, move,
  wake, signal, over, sleep, pushed, popped, call, with_char, Move, calls, spurious, enter, step,
  threads_of, initial, Reach, start, next, run,
}
use dcl140_2023_nov.Sync.SharedStack.Counts.{stays}
use dcl140_2023_nov.Sync.SharedStack.Invariant.{IsBusy, Reach-Inv, popped_lem, with_char_lem}

-- What a thread has before it: a round is a sleep, a wake-up and a push or pop at most.
abbrev weight : Thread → ℕ
weight t = 3 * t.todo + stays t.pc

abbrev weights : System → ℕ
weights s = total weight s.threads

wake_cost :
    (j : ℕ) (s : System) (t : Thread) (p : Pc) {s' : System}
    → get_elem? s.threads j ≡ some t
    → t.pc ≡ p
    → wake j s t p ≡ some s'
    → weights s' ≤ weights s + 1
unfolding wake
wake_cost j s t outside e f h = cc
wake_cost j s t woken e f h = cc
wake_cost j s t asleep e f h =
    subst (λ z. weights z ≤ weights s + 1) (some-injective _ _ h)
      (omega (arith, total-set weight s.threads j t (record t { pc = woken }) e, ap stays f))

signal_cost :
    (w : Option ℕ) (s : System) {s' : System} → signal w s ≡ some s' → weights s' ≤ weights s + 1
unfolding signal
signal_cost none s h = elim (Bool-cases (total is_asleep s.threads == 0)) [
  | inl z ↦ subst (λ z. weights z ≤ weights s + 1) (some-injective _ _ (rw z at h)) (omega arith)
  | inr z ↦ let k = rw z at h in cc
]
signal_cost (some j) s h =
    let (t, e, k) = >>=-eq-some (get_elem? s.threads j) _ h in wake_cost j s t t.pc e refl k

-- A thread with a round to do that does not sleep, as it goes into a call.
module _ (s : System) (i : ℕ) (t o : Thread) (e : get_elem? s.threads i ≡ some t)
    (d : o.todo ≡ t.todo) (y : 0 < t.todo) (a : stays t.pc ≡ 1) where
  sleep_cost : 1 + weights (sleep i o s) ≤ weights s
  sleep_cost = omega (arith, total-set weight s.threads i t (record o { pc = asleep }) e, a, d)

  over_cost :
      (u : Thread) (b : List ℕ) (k : ℕ)
      → u.todo ≡ o.todo
      → 2 + weights (move i (over u) (record s { buffer = b; index = k })) ≤ weights s
  over_cost u b k q = omega (arith, total-set weight s.threads i t (over u) e, a, d, q, y)

  pushed_cost : 2 + weights (pushed i o s) ≤ weights s
  pushed_cost = over_cost o (set s.buffer s.index o.char) (s.index + 1) refl

  popped_cost : {s' : System} → popped i o s ≡ some s' → 2 + weights s' ≤ weights s
  popped_cost h =
      let (c, w) = popped_lem i o s h in
      subst (λ z. 2 + weights z ≤ weights s) (sym w)
        (over_cost (record o { char = c }) s.buffer (s.index - 1) refl)

  call_cost :
      (w : Option ℕ) (r : Role) {s' : System}
      → call i w s o r ≡ some s'
      → 1 + weights s' ≤ weights s
  unfolding call
  call_cost w producer h = elim (Bool-cases (s.index == stack_size)) [
    | inl z ↦ subst (λ z. 1 + weights z ≤ weights s) (some-injective _ _ (rw z at h)) sleep_cost
    | inr z ↦ omega (arith, pushed_cost, signal_cost w (pushed i o s) (rw z at h))
  ]
  call_cost w consumer h = elim (Bool-cases (s.index == 0)) [
    | inl z ↦ subst (λ z. 1 + weights z ≤ weights s) (some-injective _ _ (rw z at h)) sleep_cost
    | inr z ↦
        let (p, b, k) = >>=-eq-some (popped i o s) _ (rw z at h) in
        omega (arith, popped_cost b, signal_cost w p k)
  ]

enter_cost :
    (s : System) (i c : ℕ) (w : Option ℕ) (t : Thread) (p : Pc) {s' : System}
    → get_elem? s.threads i ≡ some t
    → IsBusy t
    → t.pc ≡ p
    → enter i c w s t p ≡ some s'
    → 1 + weights s' ≤ weights s
unfolding enter
enter_cost s i c w t outside e b f h = elim (Bool-cases (t.todo == 0)) [
  | inl z ↦ let k = rw z at h in cc
  | inr z ↦
      let (_, _, d) = with_char_lem c t in
      call_cost s i t (with_char c t) e d (ground (arith, z)) (ap stays f) w t.role (rw z at h)
]
enter_cost s i c w t woken e b f h =
    call_cost s i t t e refl (ground (arith, b, f)) (ap stays f) w t.role h
enter_cost s i c w t asleep e b f h = cc

-- The calls that are made in a sequence of moves, and the wake-ups with no signal.
pub made : List Move → ℕ
made [] = 0
made (calls i c w ∷ ms) = suc (made ms)
made (spurious i ∷ ms) = made ms

pub unsignalled : List Move → ℕ
unsignalled [] = 0
unsignalled (calls i c w ∷ ms) = unsignalled ms
unsignalled (spurious i ∷ ms) = suc (unsignalled ms)

run_cost :
    {n : ℕ} (ms : List Move) {s s' : System}
    → Reach n s
    → run ms s ≡ some s'
    → made ms + weights s' ≤ weights s + unsignalled ms
unfolding run made unsignalled step
run_cost [] {s} r h =
    subst (λ z. 0 + weights z ≤ weights s + 0) (some-injective _ _ h) (omega arith)
run_cost {n} (calls i c w ∷ ms) {s} r h =
    let (p, x, y) = >>=-eq-some (step (calls i c w) s) (run ms) h in
    let (t, e, k) = >>=-eq-some (get_elem? s.threads i) _ x in
    let b = All-get_elem? IsBusy s.threads i t (Reach-Inv n r).busy e in
    omega (arith, run_cost ms (next (calls i c w) r x) y, enter_cost s i c w t t.pc e b refl k)
run_cost (spurious i ∷ ms) {s} r h =
    let (p, x, y) = >>=-eq-some (step (spurious i) s) (run ms) h in
    let (t, e, k) = >>=-eq-some (get_elem? s.threads i) _ x in
    omega (arith, run_cost ms (next (spurious i) r x) y, wake_cost i s t t.pc e refl k)

fresh_weights : (n : ℕ) → total weight (threads_of n) ≡ n * 152
unfolding total threads_of
fresh_weights zero = refl
fresh_weights (suc n) = omega (arith, fresh_weights n)

-- Whatever the schedule, the producers and consumers of any number of processes go into their
-- calls, anew or behind a wait, at most 152 times for each process, and once more for each
-- spurious wake-up.
pub run-made :
    (n : ℕ) (b : List ℕ) (ms : List Move) {s : System}
    → length b ≡ stack_size
    → run ms (initial n b) ≡ some s
    → made ms ≤ n * 152 + unsignalled ms
run-made n b ms l h = omega (arith, run_cost ms (start b l) h, fresh_weights n)
