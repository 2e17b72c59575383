-- ===== src/Sync/SharedStack/Invariant.antt =====
-- What holds in every state of the threads of any number of processes.
use std.Path.{subst}
use mathlib.Core.Option.{some-injective}
use dcl140_2023_nov.Prelude.{
  ℕ, zero, suc, ◌+◌, ◌-◌, ◌≤◌, ◌<◌, ◌≡◌, ◌⊎◌, refl, inl, inr, sym, ◌∙◌, false, Option, none, some,
  List, get_elem?, set, length, length-set, All, arith, ◌==◌, >>=-eq-some, Bool-cases,
}
use dcl140_2023_nov.Sync.Sums.{total, total-set, All-set, All-get_elem?}
use dcl140_2023_nov.Sync.SharedStack.Defs.{
  stack_size, Role, producer, consumer, Pc, outside, asleep, woken, Thread, System, is_asleep, move,
  wake, signal, over, sleep, pushed, popped, call, with_char, Move, calls, spurious, enter, step,
  threads_of, initial, Reach, start, next,
}
use dcl140_2023_nov.Sync.SharedStack.Counts.{sleeping, up, rounds, people_lem}

-- A thread in a call has a round to do.
abbrev pub IsBusy : Thread → Type 0
IsBusy t = (t.pc ≡ outside) ⊎ (0 < t.todo)

pub record Inv (n : ℕ) (s : System) : Type 0 where
  pub room : length s.buffer ≡ stack_size
  pub bound : s.index ≤ stack_size
  -- what was pushed and not popped is in the buffer
  pub balance : s.index + total (rounds producer) s.threads ≡ total (rounds consumer) s.threads
  pub people : (r : Role) → total (sleeping r) s.threads + total (up r) s.threads ≡ n
  pub busy : All IsBusy s.threads

-- What a pop does.
pub popped_lem :
    (i : ℕ) (t : Thread) (s : System) {s' : System}
    → popped i t s ≡ some s'
    → (c : ℕ) × (s' ≡ move i (over (record t { char = c })) (record s { index = s.index - 1 }))
unfolding popped
popped_lem i t s h =
    let (c, e, k) = >>=-eq-some (get_elem? s.buffer (s.index - 1)) _ h in
    (c, sym (some-injective _ _ k))

pub with_char_lem :
    (c : ℕ) (t : Thread)
    → ((with_char c t).role ≡ t.role)
      × ((with_char c t).pc ≡ t.pc)
      × ((with_char c t).todo ≡ t.todo)
with_char_lem c t = ground arith

fresh-rounds :
    (n : ℕ) → total (rounds producer) (threads_of n) ≡ total (rounds consumer) (threads_of n)
unfolding threads_of total
fresh-rounds zero = refl
fresh-rounds (suc n) = omega (arith, fresh-rounds n)

fresh-people :
    (n : ℕ) (r : Role) → total (sleeping r) (threads_of n) + total (up r) (threads_of n) ≡ n
unfolding threads_of total
fresh-people zero r = refl
fresh-people (suc n) producer = omega (arith, fresh-people n producer)
fresh-people (suc n) consumer = omega (arith, fresh-people n consumer)

fresh-IsBusy : (n : ℕ) → All IsBusy (threads_of n)
unfolding threads_of
fresh-IsBusy zero = tt
fresh-IsBusy (suc n) = (inl refl, (inl refl, fresh-IsBusy n))

module _ (n : ℕ) where
  module _ (s : System) (v : Inv n s) (i : ℕ) (t : Thread)
      (e : get_elem? s.threads i ≡ some t) where
    is_busy : IsBusy t
    is_busy = All-get_elem? IsBusy s.threads i t v.busy e

    -- Thread `i` goes on as `u`, and the stack becomes another.
    put-Inv :
        (u : Thread) (b : List ℕ) (k : ℕ)
        → u.role ≡ t.role
        → IsBusy u
        → length b ≡ stack_size
        → k ≤ stack_size
        → k + rounds producer u + rounds consumer t
          ≡ s.index + rounds producer t + rounds consumer u
        → Inv n (move i u (record s { buffer = b; index = k }))
    put-Inv u b k q y l m h = record {
      room = l;
      bound = m;
      balance = omega (
        arith,
        v.balance,
        h,
        total-set (rounds producer) s.threads i t u e,
        total-set (rounds consumer) s.threads i t u e,
      );
      people = λ r. people_lem r s.threads i t u e q ∙ v.people r;
      busy = All-set IsBusy s.threads i u v.busy y;
    }

    wake-Inv : (p : Pc) {s' : System} → t.pc ≡ p → wake i s t p ≡ some s' → Inv n s'
    unfolding wake
    wake-Inv outside f h = cc
    wake-Inv woken f h = cc
    wake-Inv asleep f h =
        let y : 0 < t.todo = ground (arith, is_busy, f) in
        subst (Inv n) (some-injective _ _ h)
          (put-Inv (record t { pc = woken }) s.buffer s.index refl (inr y) v.room v.bound refl)

    -- The thread as it goes into a call, with another character.
    module _ (o : Thread) (q : o.role ≡ t.role) (d : o.todo ≡ t.todo) (y : 0 < t.todo) where
      sleep-Inv : Inv n (sleep i o s)
      sleep-Inv =
          put-Inv (record o { pc = asleep }) s.buffer s.index q (inr (omega (arith, y, d))) v.room
            v.bound (ground (arith, q, d))

      pushed-Inv : t.role ≡ producer → (s.index == stack_size) ≡ false → Inv n (pushed i o s)
      pushed-Inv f z =
          put-Inv (over o) (set s.buffer s.index o.char) (s.index + 1) q (inl refl)
            (length-set s.buffer s.index o.char ∙ v.room) (ground (arith, v.bound, z))
            (ground (arith, q, d, f, y))

      popped-Inv :
          {s' : System}
          → t.role ≡ consumer
          → (s.index == 0) ≡ false
          → popped i o s ≡ some s'
          → Inv n s'
      popped-Inv f z h =
          let (c, w) = popped_lem i o s h in
          subst (Inv n) (sym w) (
            put-Inv (over (record o { char = c })) s.buffer (s.index - 1) q (inl refl) v.room
              (omega (arith, v.bound)) (ground (arith, q, d, f, y, z)))

  signal-Inv : (w : Option ℕ) (s : System) {s' : System} → Inv n s → signal w s ≡ some s' → Inv n s'
  unfolding signal
  signal-Inv none s v h = elim (Bool-cases (total is_asleep s.threads == 0)) [
    | inl z ↦ subst (Inv n) (some-injective _ _ (rw z at h)) v
    | inr z ↦ let k = rw z at h in cc
  ]
  signal-Inv (some j) s v h =
      let (t, e, k) = >>=-eq-some (get_elem? s.threads j) _ h in wake-Inv s v j t e t.pc refl k

  module _ (s : System) (v : Inv n s) (i : ℕ) (t : Thread) (e : get_elem? s.threads i ≡ some t)
      (w : Option ℕ) where
    call-Inv :
        (o : Thread) (r : Role) {s' : System}
        → o.role ≡ t.role
        → o.todo ≡ t.todo
        → 0 < t.todo
        → t.role ≡ r
        → call i w s o r ≡ some s'
        → Inv n s'
    unfolding call
    call-Inv o producer q d y f h = elim (Bool-cases (s.index == stack_size)) [
      | inl z ↦ subst (Inv n) (some-injective _ _ (rw z at h)) (sleep-Inv s v i t e o q d y)
      | inr z ↦ signal-Inv w (pushed i o s) (pushed-Inv s v i t e o q d y f z) (rw z at h)
    ]
    call-Inv o consumer q d y f h = elim (Bool-cases (s.index == 0)) [
      | inl z ↦ subst (Inv n) (some-injective _ _ (rw z at h)) (sleep-Inv s v i t e o q d y)
      | inr z ↦
          let (p, a, b) = >>=-eq-some (popped i o s) _ (rw z at h) in
          signal-Inv w p (popped-Inv s v i t e o q d y f z a) b
    ]

    enter-Inv : (c : ℕ) (p : Pc) {s' : System} → t.pc ≡ p → enter i c w s t p ≡ some s' → Inv n s'
    unfolding enter
    enter-Inv c outside f h = elim (Bool-cases (t.todo == 0)) [
      | inl z ↦ let k = rw z at h in cc
      | inr z ↦
          let (a, b, d) = with_char_lem c t in
          call-Inv (with_char c t) t.role a d (ground (arith, z)) refl (rw z at h)
    ]
    enter-Inv c woken f h =
        call-Inv t t.role refl refl (ground (arith, is_busy s v i t e, f)) refl h
    enter-Inv c asleep f h = cc

  step-Inv : (m : Move) {s s' : System} → Inv n s → step m s ≡ some s' → Inv n s'
  unfolding step
  step-Inv (calls i c w) {s} v h =
      let (t, e, k) = >>=-eq-some (get_elem? s.threads i) _ h in enter-Inv s v i t e w c t.pc refl k
  step-Inv (spurious i) {s} v h =
      let (t, e, k) = >>=-eq-some (get_elem? s.threads i) _ h in wake-Inv s v i t e t.pc refl k

  initial-Inv : (b : List ℕ) → length b ≡ stack_size → Inv n (initial n b)
  initial-Inv b h = record {
    room = h;
    bound = omega arith;
    balance = omega (arith, fresh-rounds n);
    people = fresh-people n;
    busy = fresh-IsBusy n;
  }

  pub Reach-Inv : {s : System} → Reach n s → Inv n s
  Reach-Inv (start b h) = initial-Inv b h
  Reach-Inv (next m r h) = step-Inv m (Reach-Inv r) h

  -- In every reachable state of the producers and consumers of any number of processes the buffer
  -- has its three cells, the index is at most three, and the index and the rounds left to the
  -- producers are the rounds left to the consumers.
  pub Reach-buffer :
      {s : System}
      → Reach n s
      → (length s.buffer ≡ stack_size)
        × (s.index ≤ stack_size)
        × (s.index + total (rounds producer) s.threads ≡ total (rounds consumer) s.threads)
  Reach-buffer r = let v = Reach-Inv r in (v.room, v.bound, v.balance)
