-- ===== src/Sync/SharedStack/Few.antt =====
-- Up to three processes: who sleeps, and who was woken.
use std.Path.{subst}
use mathlib.Core.Option.{some-injective}
use dcl140_2023_nov.Prelude.{
  ℕ, zero, suc, ◌+◌, ◌≤◌, ◌≡◌, ◌⊎◌, refl, inl, inr, sym, false, Option, none, some, List, [], ◌∷◌,
  get_elem?, set, arith, ◌==◌, >>=-eq-some, Bool-cases,
}
use dcl140_2023_nov.Sync.Sums.{total, total-set, get_elem?-le-total}
use dcl140_2023_nov.Sync.SharedStack.Defs.{
  stack_size, Role, producer, consumer, Pc, outside, asleep, woken, Thread, System, is_asleep, move,
  wake, signal, over, sleep, pushed, popped, call, with_char, Move, calls, spurious, enter, step,
  threads_of, Reach, start, next,
}
use dcl140_2023_nov.Sync.SharedStack.Counts.{among, sleeps, wakes, sleeping, waking, up, Fine, Owed}
use dcl140_2023_nov.Sync.SharedStack.Invariant.{Inv, Reach-Inv, popped_lem, with_char_lem}

abbrev pub FineIn : System → Type 0
FineIn s =
    Fine s.index (total (sleeping producer) s.threads) (total (waking producer) s.threads)
      (total (sleeping consumer) s.threads) (total (waking consumer) s.threads)

abbrev OwedIn : System → Type 0
OwedIn s =
    Owed s.index (total (sleeping producer) s.threads) (total (waking producer) s.threads)
      (total (sleeping consumer) s.threads) (total (waking consumer) s.threads)

-- The sums over threads of which one is another now.
module _ (ts : List Thread) (i : ℕ) (t u : Thread) (e : get_elem? ts i ≡ some t) where
  sleeping-set :
      (r : Role)
      → total (sleeping r) (set ts i u) + sleeping r t ≡ total (sleeping r) ts + sleeping r u
  sleeping-set r = total-set (sleeping r) ts i t u e

  waking-set :
      (r : Role) → total (waking r) (set ts i u) + waking r t ≡ total (waking r) ts + waking r u
  waking-set r = total-set (waking r) ts i t u e

-- By how much the sums change, for a thread of a role.
module _ (ts : List Thread) (i : ℕ) (t u : Thread) (e : get_elem? ts i ≡ some t)
    (same : u.role ≡ t.role) where
  abbrev Changes : Role → Role → Pc → Pc → Type 0
  Changes o r p q =
      (total (sleeping o) (set ts i u) + among o r (sleeps p)
        ≡ total (sleeping o) ts + among o r (sleeps q))
      × (total (waking o) (set ts i u) + among o r (wakes p)
          ≡ total (waking o) ts + among o r (wakes q))

  changes : (o r : Role) (p q : Pc) → t.role ≡ r → t.pc ≡ p → u.pc ≡ q → Changes o r p q
  changes o r p q a b c =
      let x = sleeping-set ts i t u e o in
      let y = waking-set ts i t u e o in
      (ground (arith, x, a, b, c, same), ground (arith, y, a, b, c, same))

module _ (s : System) (i : ℕ) (t : Thread) (e : get_elem? s.threads i ≡ some t) where
  -- A thread that sleeps is woken.
  wake-FineIn :
      (r : Role)
      → t.role ≡ r
      → t.pc ≡ asleep
      → OwedIn s ⊎ FineIn s
      → FineIn (move i (record t { pc = woken }) s)
  wake-FineIn producer q f h =
      let u : Thread = record t { pc = woken } in
      let p = changes s.threads i t u e refl producer producer asleep woken q f refl in
      let c = changes s.threads i t u e refl consumer producer asleep woken q f refl in
      ground (arith, h, p, c)
  wake-FineIn consumer q f h =
      let u : Thread = record t { pc = woken } in
      let p = changes s.threads i t u e refl producer consumer asleep woken q f refl in
      let c = changes s.threads i t u e refl consumer consumer asleep woken q f refl in
      ground (arith, h, p, c)

  wake-Fine_from :
      (p : Pc) {s' : System} → t.pc ≡ p → OwedIn s ⊎ FineIn s → wake i s t p ≡ some s' → FineIn s'
  unfolding wake
  wake-Fine_from outside f h k = cc
  wake-Fine_from woken f h k = cc
  wake-Fine_from asleep f h k = subst FineIn (some-injective _ _ k) (wake-FineIn t.role refl f h)

  module _ (o : Thread) (same : o.role ≡ t.role) (p : Pc) (g : t.pc ≡ p)
      (awake : (p ≡ outside) ⊎ (p ≡ woken)) where
    module _ (n : ℕ) (v : Inv n s) (few : n ≤ 3) where
      -- There is a place to sleep.
      up_one : (r : Role) → t.role ≡ r → 1 ≤ up r t
      up_one producer q = ground (arith, g, awake, q)
      up_one consumer q = ground (arith, g, awake, q)

      place : (r : Role) → t.role ≡ r → total (sleeping r) s.threads + 1 ≤ 3
      place r q =
          omega (arith, v.people r, few, up_one r q, get_elem?-le-total (up r) s.threads i t e)

      sleep-FineIn :
          (r : Role)
          → t.role ≡ r
          → ((r ≡ producer) × (s.index ≡ 3)) ⊎ ((r ≡ consumer) × (s.index ≡ 0))
          → FineIn s
          → FineIn (sleep i o s)
      sleep-FineIn producer q x h =
          let u : Thread = record o { pc = asleep } in
          let a = changes s.threads i t u e same producer producer p asleep q g refl in
          let b = changes s.threads i t u e same consumer producer p asleep q g refl in
          let l = place producer q in ground (arith, h, x, a, b, l, awake)
      sleep-FineIn consumer q x h =
          let u : Thread = record o { pc = asleep } in
          let a = changes s.threads i t u e same producer consumer p asleep q g refl in
          let b = changes s.threads i t u e same consumer consumer p asleep q g refl in
          let l = place consumer q in ground (arith, h, x, a, b, l, awake)

    pushed-OwedIn : t.role ≡ producer → FineIn s → OwedIn (pushed i o s)
    pushed-OwedIn q h =
        let u = over o in
        let a = changes s.threads i t u e same producer producer p outside q g refl in
        let b = changes s.threads i t u e same consumer producer p outside q g refl in
        ground (arith, h, a, b, awake)

    popped-OwedIn :
        {s' : System}
        → t.role ≡ consumer
        → (s.index == 0) ≡ false
        → FineIn s
        → popped i o s ≡ some s'
        → OwedIn s'
    popped-OwedIn q z h k =
        let (c, w) = popped_lem i o s k in
        let u = over (record o { char = c }) in
        let a = changes s.threads i t u e same producer consumer p outside q g refl in
        let b = changes s.threads i t u e same consumer consumer p outside q g refl in
        subst OwedIn (sym w) (ground (arith, h, a, b, awake, z))

pub sleepers_lem :
    (ts : List Thread)
    → total (sleeping producer) ts + total (sleeping consumer) ts ≡ total is_asleep ts
unfolding total
sleepers_lem [] = omega arith
sleepers_lem (t ∷ ts) =
    let e : sleeping producer t + sleeping consumer t ≡ is_asleep t = ground arith in
    omega (arith, sleepers_lem ts, e)

signal-FineIn :
    (w : Option ℕ) (s : System) {s' : System}
    → s.index ≤ stack_size
    → OwedIn s
    → signal w s ≡ some s'
    → FineIn s'
unfolding signal
signal-FineIn none s b v h = elim (Bool-cases (total is_asleep s.threads == 0)) [
  | inl z ↦
      let k = sleepers_lem s.threads in
      subst FineIn (some-injective _ _ (rw z at h)) (ground (arith, v, z, k, b))
  | inr z ↦ let k = rw z at h in cc
]
signal-FineIn (some j) s b v h =
    let (t, e, k) = >>=-eq-some (get_elem? s.threads j) _ h in
    wake-Fine_from s j t e t.pc refl (inl v) k

fresh_sleepers :
    (n : ℕ)
    → (total (sleeping producer) (threads_of n) ≡ 0)
      × (total (sleeping consumer) (threads_of n) ≡ 0)
unfolding threads_of total
fresh_sleepers zero = (refl, refl)
fresh_sleepers (suc n) = let (p, c) = fresh_sleepers n in (omega (arith, p), omega (arith, c))

module _ (n : ℕ) (few : n ≤ 3) where
  module _ (s : System) (v : Inv n s) (f : FineIn s) (i : ℕ) (t : Thread)
      (e : get_elem? s.threads i ≡ some t) (w : Option ℕ) where
    call-FineIn :
        (o : Thread) (r : Role) {s' : System}
        → o.role ≡ t.role
        → (t.pc ≡ outside) ⊎ (t.pc ≡ woken)
        → t.role ≡ r
        → call i w s o r ≡ some s'
        → FineIn s'
    unfolding call
    call-FineIn o producer q a g h = elim (Bool-cases (s.index == stack_size)) [
      | inl z ↦ subst FineIn (some-injective _ _ (rw z at h)) (
          sleep-FineIn s i t e o q t.pc refl a n v few producer g (inl (refl, ground (arith, z))) f)
      | inr z ↦
          signal-FineIn w (pushed i o s) (ground (arith, z, v.bound))
            (pushed-OwedIn s i t e o q t.pc refl a g f) (rw z at h)
    ]
    call-FineIn o consumer q a g h = elim (Bool-cases (s.index == 0)) [
      | inl z ↦ subst FineIn (some-injective _ _ (rw z at h)) (
          sleep-FineIn s i t e o q t.pc refl a n v few consumer g (inr (refl, ground (arith, z))) f)
      | inr z ↦
          let (p, x, y) = >>=-eq-some (popped i o s) _ (rw z at h) in
          let b = popped_lem i o s x in
          signal-FineIn w p (ground (arith, b, v.bound))
            (popped-OwedIn s i t e o q t.pc refl a g z f x) y
    ]

    enter-FineIn :
        (c : ℕ) (p : Pc) {s' : System} → t.pc ≡ p → enter i c w s t p ≡ some s' → FineIn s'
    unfolding enter
    enter-FineIn c outside g h = elim (Bool-cases (t.todo == 0)) [
      | inl z ↦ let k = rw z at h in cc
      | inr z ↦ call-FineIn (with_char c t) t.role (with_char_lem c t).0 (inl g) refl (rw z at h)
    ]
    enter-FineIn c woken g h = call-FineIn t t.role refl (inr g) refl h
    enter-FineIn c asleep g h = cc

  step-FineIn : (m : Move) {s s' : System} → Inv n s → FineIn s → step m s ≡ some s' → FineIn s'
  unfolding step
  step-FineIn (calls i c w) {s} v f h =
      let (t, e, k) = >>=-eq-some (get_elem? s.threads i) _ h in
      enter-FineIn s v f i t e w c t.pc refl k
  step-FineIn (spurious i) {s} v f h =
      let (t, e, k) = >>=-eq-some (get_elem? s.threads i) _ h in
      wake-Fine_from s i t e t.pc refl (inr f) k

  pub Reach-FineIn : {s : System} → Reach n s → FineIn s
  Reach-FineIn (start b h) =
      let (p, c) = fresh_sleepers n in (inl (p, omega (arith, c)), inl c, inl p)
  Reach-FineIn (next {s} m r h) = step-FineIn m (Reach-Inv n r) (Reach-FineIn r) h
