-- ===== src/Sync/Stack/Invariant.antt =====
-- What holds in every state of the producer and the consumer.
use dcl140_2023_nov.Prelude.{
  ℕ, ◌+◌, ◌≤◌, ◌<◌, ◌≡◌, ◌⊎◌, Bool, true, false, Option, none, some, List, length, length-set,
  arith,
}
use dcl140_2023_nov.Sync.Stack.Defs.{
  stack_size, Role, producer, consumer, Pc, outside, test, asleep, woken, signal, unlock, System,
  initial, Move, push_lock, step, Reach, start, next,
}

abbrev pub holds : Pc → Bool
holds test = true
holds signal = true
holds unlock = true
holds outside = false
holds asleep = false
holds woken = false

-- The element of this round is in the buffer already, or out of it.
abbrev pub moved : Pc → ℕ
moved signal = 1
moved unlock = 1
moved outside = 0
moved test = 0
moved asleep = 0
moved woken = 0

abbrev pub owned_by : Role → Option Role → Bool
owned_by producer (some producer) = true
owned_by consumer (some consumer) = true
owned_by producer (some consumer) = false
owned_by consumer (some producer) = false
owned_by r none = false

pub record Inv (s : System) : Type 0 where
  pub room : length s.buffer ≡ stack_size
  pub bound : s.index ≤ stack_size
  pub push_owns : holds s.pusher.pc ≡ owned_by producer s.owner
  pub pop_owns : holds s.popper.pc ≡ owned_by consumer s.owner
  pub push_sleeps : s.pusher.pc ≡ asleep → (s.index ≡ stack_size) ⊎ (s.popper.pc ≡ signal)
  pub pop_sleeps : s.popper.pc ≡ asleep → (s.index ≡ 0) ⊎ (s.pusher.pc ≡ signal)
  pub push_round : (s.pusher.pc ≡ outside) ⊎ (0 < s.pusher.todo)
  pub pop_round : (s.popper.pc ≡ outside) ⊎ (0 < s.popper.todo)
  -- what was pushed and not popped is in the buffer
  pub balance : s.index + s.pusher.todo + moved s.popper.pc ≡ s.popper.todo + moved s.pusher.pc

Inv-initial : (b : List ℕ) → length b ≡ stack_size → Inv (initial b)
Inv-initial b h = ground arith

step-Inv : (m : Move) {s t : System} → Inv s → step m s ≡ some t → Inv t
unfolding step
step-Inv (push_lock c) {s} {t} v h = ground arith
step-Inv _ {s} {t} v h = ground (arith, length-set s.buffer s.index s.pusher.char)

-- In every reachable state of the producer and the consumer the buffer has its size and the index
-- is within it; the mutex is owned by exactly the thread that is between its lock and its unlock;
-- a thread sleeps only on a full, or empty, stack or with a signal on its way; and what was pushed
-- and not popped is in the buffer.
pub Reach-Inv : {s : System} → Reach s → Inv s
Reach-Inv (start b h) = Inv-initial b h
Reach-Inv (next m r e) = step-Inv m (Reach-Inv r) e
