-- ===== src/Sync/SharedStack/Progress.antt =====
-- Up to three processes come to an end together.
use dcl140_2023_nov.Prelude.{
  ℕ, ◌+◌, ◌-◌, ◌≤◌, ◌<◌, ◌≡◌, ◌⊎◌, refl, inl, inr, Bool, true, false, Option, none, some, List, [],
  ◌∷◌, get_elem?, get_elem?-some, set, length, All, arith, ◌==◌, if◌then◌else◌, Bool-cases,
}
use dcl140_2023_nov.Sync.Sums.{zero_or_pos, total, total_pos, get_elem?-le-total, All-get_elem?}
use dcl140_2023_nov.Sync.SharedStack.Defs.{
  stack_size, Role, producer, consumer, Pc, outside, asleep, woken, Thread, System, is_asleep, move,
  wake, signal, over, popped, call, with_char, calls, enter, step, Reach,
}
use dcl140_2023_nov.Sync.SharedStack.Counts.{sleeping, waking, rounds}
use dcl140_2023_nov.Sync.SharedStack.Invariant.{Inv, IsBusy, Reach-Inv}
use dcl140_2023_nov.Sync.SharedStack.Few.{FineIn, Reach-FineIn, sleepers_lem}

abbrev pub is_some : Option System → Bool
is_some none = false
is_some (some s) = true

-- Some thread can go on in a call, with no spurious wake-up.
abbrev pub Runs : System → Type 0
Runs s = (i : ℕ) × ((c : ℕ) → (w : Option ℕ) × (is_some (step (calls i c w) s) ≡ true))

abbrev pub HasEnded : Thread → Type 0
HasEnded t = (t.pc ≡ outside) × (t.todo ≡ 0)

abbrev is_ready : Thread → ℕ
is_ready t = elim t.pc [ outside ↦ (if t.todo == 0 then 0 else 1) | woken ↦ 1 | asleep ↦ 0 ]

get_sleeper :
    (ts : List Thread)
    → 0 < total is_asleep ts
    → (j : ℕ) × (t : Thread) × (get_elem? ts j ≡ some t) × (t.pc ≡ asleep)
get_sleeper ts h = let (j, t, e, p) = total_pos is_asleep ts h in (j, t, e, ground (arith, p))

signal_can : (s : System) → (w : Option ℕ) × (is_some (signal w s) ≡ true)
unfolding signal wake
signal_can s = elim (zero_or_pos (total is_asleep s.threads)) [
  | inl z ↦ (none, ground (arith, z))
  | inr p ↦ let (j, t, e, f) = get_sleeper s.threads p in (some j, ground (arith, e, f))
]

-- A call goes on, and wakes some thread if there is one to wake.
call_can :
    (i : ℕ) (s : System) (o : Thread) (r : Role)
    → length s.buffer ≡ stack_size
    → s.index ≤ stack_size
    → (w : Option ℕ) × (is_some (call i w s o r) ≡ true)
unfolding call popped
call_can i s o producer l b = elim (Bool-cases (s.index == stack_size)) [
  | inl z ↦ (none, rw z refl)
  | inr z ↦
      let (w, h) = signal_can (
        move i (over o) (record s { buffer = set s.buffer s.index o.char; index = s.index + 1 })) in
      (w, rw z h)
]
call_can i s o consumer l b = elim (Bool-cases (s.index == 0)) [
  | inl z ↦ (none, rw z refl)
  | inr z ↦
      let (c, e) = get_elem?-some s.buffer (s.index - 1) (ground (arith, z, b, l)) in
      let (w, h) =
        signal_can (move i (over (record o { char = c })) (record s { index = s.index - 1 })) in
      (w, rw z (rw e h))
]

module _ (n : ℕ) (s : System) (v : Inv n s) where
  ready-Runs : (i : ℕ) (t : Thread) → get_elem? s.threads i ≡ some t → 0 < is_ready t → Runs s
  unfolding step enter
  ready-Runs i t e h = (i, λ c. let (w, k) = by_pc t.pc refl c in (w, rw e k))
    where
      by_pc : (p : Pc) → t.pc ≡ p → (c : ℕ) → (w : Option ℕ) × (is_some (enter i c w s t p) ≡ true)
      by_pc outside f c =
          let z : (t.todo == 0) ≡ false = ground (arith, h, f) in
          let (w, k) = call_can i s (with_char c t) t.role v.room v.bound in (w, rw z k)
      by_pc woken f c = call_can i s t t.role v.room v.bound
      by_pc asleep f c = absurd (ground (arith, h, f))

  module _ (idle : total is_ready s.threads ≡ 0) where
    not_ready : (i : ℕ) (t : Thread) → get_elem? s.threads i ≡ some t → is_ready t ≡ 0
    not_ready i t e = omega (arith, idle, get_elem?-le-total is_ready s.threads i t e)

    waking_none : (r : Role) → total (waking r) s.threads ≡ 0
    waking_none r = elim (zero_or_pos (total (waking r) s.threads)) [
      | inl z ↦ z
      | inr p ↦
          let (i, t, e, q) = total_pos (waking r) s.threads p in
          let z = not_ready i t e in absurd (ground (arith, q, z))
    ]

    -- Who has rounds left sleeps.
    rounds_sleep : (r : Role) → 0 < total (rounds r) s.threads → 0 < total (sleeping r) s.threads
    rounds_sleep r p =
        let (i, t, e, q) = total_pos (rounds r) s.threads p in
        let z = not_ready i t e in
        let b = All-get_elem? IsBusy s.threads i t v.busy e in
        let k : 1 ≤ sleeping r t = ground (arith, q, z, b) in
        omega (arith, k, get_elem?-le-total (sleeping r) s.threads i t e)

    sleep_rounds : (r : Role) → 0 < total (sleeping r) s.threads → 0 < total (rounds r) s.threads
    sleep_rounds r p =
        let (i, t, e, q) = total_pos (sleeping r) s.threads p in
        let b = All-get_elem? IsBusy s.threads i t v.busy e in
        let k : 1 ≤ rounds r t = ground (arith, q, b) in
        omega (arith, k, get_elem?-le-total (rounds r) s.threads i t e)

    no_sleeper : FineIn s → total is_asleep s.threads ≡ 0
    no_sleeper f =
        let w = waking_none producer in
        let x = waking_none consumer in
        let k = sleepers_lem s.threads in
        elim (zero_or_pos (total (sleeping consumer) s.threads)) [
          | inr c ↦
              let q = sleep_rounds consumer c in
              let i : s.index ≡ 0 = ground (arith, f, x, c) in
              absurd (ground (arith, f, c, rounds_sleep producer (omega (arith, v.balance, q, i))))
          | inl c ↦ elim (zero_or_pos (total (sleeping producer) s.threads)) [
            | inl p ↦ omega (arith, k, c, p)
            | inr p ↦
                let i : 3 ≤ s.index = ground (arith, f, w, p) in
                absurd (omega (arith, c, rounds_sleep consumer (omega (arith, v.balance, i))))
          ]
        ]

    drained : total is_asleep s.threads ≡ 0 → s.index ≡ 0
    drained a = elim (zero_or_pos (total (rounds consumer) s.threads)) [
      | inl z ↦ omega (arith, v.balance, z)
      | inr p ↦ absurd (omega (arith, a, rounds_sleep consumer p, sleepers_lem s.threads))
    ]

All-HasEnded : (ts : List Thread) → total is_ready ts ≡ 0 → total is_asleep ts ≡ 0 → All HasEnded ts
unfolding total
All-HasEnded [] a b = tt
All-HasEnded (t ∷ ts) a b =
    let x : is_ready t ≡ 0 = omega (arith, a) in
    let y : is_asleep t ≡ 0 = omega (arith, b) in
    (ground (arith, x, y), All-HasEnded ts (omega (arith, a)) (omega (arith, b)))

-- In every reachable state of the producers and consumers of at most three processes some thread
-- can make its call, without counting on a spurious wake-up, unless all threads have ended, and
-- then the stack is empty.
pub Reach-unstuck :
    (n : ℕ) {s : System} → n ≤ 3 → Reach n s → Runs s ⊎ (All HasEnded s.threads × (s.index ≡ 0))
Reach-unstuck n {s} few r =
    let v = Reach-Inv n r in
    elim (zero_or_pos (total is_ready s.threads)) [
      | inr p ↦ let (i, t, e, q) = total_pos is_ready s.threads p in inl (ready-Runs n s v i t e q)
      | inl z ↦
          let a = no_sleeper n s v z (Reach-FineIn n few r) in
          let h = All-HasEnded s.threads z a in inr (h, drained n s v z a)
    ]
