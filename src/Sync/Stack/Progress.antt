-- ===== src/Sync/Stack/Progress.antt =====
-- The producer and the consumer never wait for each other.
use dcl140_2023_nov.Prelude.{
  ◌-◌, ◌<◌, ◌≡◌, refl, ◌⊎◌, inl, inr, Bool, true, false, Option, none, some, length, arith, ◌==◌,
  Bool-cases, get_elem?-some,
}
use dcl140_2023_nov.Sync.Stack.Defs.{
  stack_size, Role, producer, consumer, Pc, outside, test, asleep, woken, signal, unlock, System,
  Move, push_lock, push_test, push_relock, push_spurious, push_signal, push_unlock, pop_lock,
  pop_test, pop_relock, pop_spurious, pop_signal, pop_unlock, step, Reach,
}
use dcl140_2023_nov.Sync.Stack.Invariant.{Inv, Reach-Inv}

-- The moves that no spurious wake-up is.
abbrev pub scheduled : Move → Bool
scheduled push_spurious = false
scheduled pop_spurious = false
scheduled _ = true

abbrev pub is_some : Option System → Bool
is_some (some t) = true
is_some none = false

-- Some move is possible that does not count on a spurious wake-up.
abbrev pub Runs : System → Type 0
Runs s = (m : Move) × (scheduled m ≡ true) × (is_some (step m s) ≡ true)

-- Both threads have left their main loop.
abbrev pub Finished : System → Type 0
Finished s =
    (s.pusher.pc ≡ outside) × (s.pusher.todo ≡ 0) × (s.popper.pc ≡ outside) × (s.popper.todo ≡ 0)

module _ (s : System) (v : Inv s) where
  push-Runs : (p : Pc) → s.pusher.pc ≡ p → s.owner ≡ some producer → Runs s
  unfolding step
  push-Runs outside e o = absurd (ground (arith, e, o, v.push_owns))
  push-Runs asleep e o = absurd (ground (arith, e, o, v.push_owns))
  push-Runs woken e o = absurd (ground (arith, e, o, v.push_owns))
  push-Runs test e o = elim (Bool-cases (s.index == stack_size)) [
    | inl b ↦ (push_test, refl, rw (e, b))
    | inr b ↦ (push_test, refl, rw (e, b))
  ]
  push-Runs signal e o = (push_signal, refl, rw e)
  push-Runs unlock e o = (push_unlock, refl, rw e)

  pop-Runs : (p : Pc) → s.popper.pc ≡ p → s.owner ≡ some consumer → Runs s
  unfolding step
  pop-Runs outside e o = absurd (ground (arith, e, o, v.pop_owns))
  pop-Runs asleep e o = absurd (ground (arith, e, o, v.pop_owns))
  pop-Runs woken e o = absurd (ground (arith, e, o, v.pop_owns))
  pop-Runs test e o = elim (Bool-cases (s.index == 0)) [
    | inl b ↦ (pop_test, refl, rw (e, b))
    | inr b ↦
        let l : s.index - 1 < length s.buffer = ground (arith, v.room, v.bound, b) in
        let (c, q) = get_elem?-some s.buffer (s.index - 1) l in (pop_test, refl, rw (e, b, q))
  ]
  pop-Runs signal e o = (pop_signal, refl, rw e)
  pop-Runs unlock e o = (pop_unlock, refl, rw e)

  -- With the mutex free, each thread is done, asleep, or able to take it.
  push_waits :
      (p : Pc)
      → s.pusher.pc ≡ p
      → s.owner ≡ none
      → Runs s ⊎ (((s.pusher.pc ≡ outside) × (s.pusher.todo ≡ 0)) ⊎ (s.pusher.pc ≡ asleep))
  unfolding step
  push_waits outside e o = elim (Bool-cases (s.pusher.todo == 0)) [
    | inl b ↦ inr (inl (e, ground (arith, b)))
    | inr b ↦ inl (push_lock 0, refl, rw (o, e, b))
  ]
  push_waits asleep e o = inr (inr e)
  push_waits woken e o = inl (push_relock, refl, rw (o, e))
  push_waits test e o = absurd (ground (arith, e, o, v.push_owns))
  push_waits signal e o = absurd (ground (arith, e, o, v.push_owns))
  push_waits unlock e o = absurd (ground (arith, e, o, v.push_owns))

  pop_waits :
      (p : Pc)
      → s.popper.pc ≡ p
      → s.owner ≡ none
      → Runs s ⊎ (((s.popper.pc ≡ outside) × (s.popper.todo ≡ 0)) ⊎ (s.popper.pc ≡ asleep))
  unfolding step
  pop_waits outside e o = elim (Bool-cases (s.popper.todo == 0)) [
    | inl b ↦ inr (inl (e, ground (arith, b)))
    | inr b ↦ inl (pop_lock, refl, rw (o, e, b))
  ]
  pop_waits asleep e o = inr (inr e)
  pop_waits woken e o = inl (pop_relock, refl, rw (o, e))
  pop_waits test e o = absurd (ground (arith, e, o, v.pop_owns))
  pop_waits signal e o = absurd (ground (arith, e, o, v.pop_owns))
  pop_waits unlock e o = absurd (ground (arith, e, o, v.pop_owns))

  both_sleep : s.pusher.pc ≡ asleep → s.popper.pc ≡ asleep → ⊥
  both_sleep e f = ground (arith, v.push_sleeps e, v.pop_sleeps f, e, f)

  push_alone : (s.pusher.pc ≡ asleep) → (s.popper.pc ≡ outside) → s.popper.todo ≡ 0 → ⊥
  push_alone e f z = ground (arith, v.push_sleeps e, v.balance, e, f, z)

  pop_alone : (s.popper.pc ≡ asleep) → (s.pusher.pc ≡ outside) → s.pusher.todo ≡ 0 → ⊥
  pop_alone e f z = ground (arith, v.pop_sleeps e, v.balance, v.pop_round, e, f, z)

  free-Runs : s.owner ≡ none → Runs s ⊎ Finished s
  free-Runs o = elim (push_waits s.pusher.pc refl o) [
    | inl r ↦ inl r
    | inr (inl (e, z)) ↦ elim (pop_waits s.popper.pc refl o) [
      | inl r ↦ inl r
      | inr (inl (f, y)) ↦ inr (e, z, f, y)
      | inr (inr f) ↦ absurd (pop_alone f e z)
    ]
    | inr (inr e) ↦ elim (pop_waits s.popper.pc refl o) [
      | inl r ↦ inl r
      | inr (inl (f, y)) ↦ absurd (push_alone e f y)
      | inr (inr f) ↦ absurd (both_sleep e f)
    ]
  ]

  owner-Runs : (o : Option Role) → s.owner ≡ o → Runs s ⊎ Finished s
  owner-Runs none e = free-Runs e
  owner-Runs (some producer) e = inl (push-Runs s.pusher.pc refl e)
  owner-Runs (some consumer) e = inl (pop-Runs s.popper.pc refl e)

-- In every reachable state of the producer and the consumer some thread can move, without counting
-- on a spurious wake-up, unless both threads have left their loops, and then the stack is empty.
pub Reach-Runs : {s : System} → Reach s → Runs s ⊎ (Finished s × (s.index ≡ 0))
Reach-Runs {s} r =
    let v = Reach-Inv r in
    elim (owner-Runs s v s.owner refl) [
      | inl m ↦ inl m
      | inr (e, z, f, y) ↦ inr ((e, z, f, y), ground (arith, v.balance, e, z, f, y))
    ]
