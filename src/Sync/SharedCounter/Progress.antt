-- ===== src/Sync/SharedCounter/Progress.antt =====
-- The processes never block each other for good.
use std.Path.{subst}
use mathlib.Core.Option.{some-injective}
use dcl140_2023_nov.Prelude.{
  ℕ, zero, suc, ◌+◌, ◌≤◌, ◌<◌, ◌≡◌, ◌⊎◌, refl, inl, inr, ap, sym, ◌∙◌, Bool, true, false, some,
  List, [], ◌∷◌, get_elem?, arith, All, >>=-eq-some, Bool-cases,
}
use dcl140_2023_nov.Sync.Sums.{total, total-set, total_pos}
use dcl140_2023_nov.Sync.SharedCounter.Defs.{
  Pc, waiting, got, held, stored, written, gone, Process, System, put, by_pc, step, cleanup,
  is_gone, interrupt, inside_at, inside, fresh_processes, Reach, start, next, interrupted,
}

abbrev pub bit : Bool → ℕ
bit true = 1
bit false = 0

pub fresh_outside : (n : ℕ) → total inside (fresh_processes n) ≡ 0
unfolding total fresh_processes
fresh_outside zero = refl
fresh_outside (suc n) = omega (arith, fresh_outside n)

-- A mutex that is locked has a process inside, whatever the handler did.
record Manned (s : System) : Type 0 where
  manned : bit s.locked ≤ total inside s.processes

module _ (s : System) (i : ℕ) (p : Process) (e : get_elem? s.processes i ≡ some p) where
  put-Manned :
      (v : Manned s) (c : Pc) (temp count : ℕ) (printed : List ℕ) (b : Bool)
      → bit b + inside_at p.pc ≤ bit s.locked + inside_at c
      → Manned (
          put i
            (record { pc = c; temporary_storage = temp })
            (record { locked = b; count = count; printed = printed; processes = s.processes }))
  put-Manned v c temp count printed b h =
      let q : Process = record { pc = c; temporary_storage = temp } in
      record { manned = omega (arith, v.manned, h, total-set inside s.processes i p q e) }

  freed-Manned : (q : Process) → Manned (put i q (record s { locked = false }))
  freed-Manned q = record { manned = omega arith }

  by_pc-Manned : (v : Manned s) (c : Pc) {t : System} → p.pc ≡ c → by_pc i s p c ≡ some t → Manned t
  unfolding by_pc
  by_pc-Manned v waiting f h = elim (Bool-cases s.locked) [
    | inl x ↦ absurd (cc (rw x at h))
    | inr x ↦ subst Manned (some-injective _ _ (rw x at h)) (
        put-Manned v got p.temporary_storage s.count s.printed true
          (omega (arith, ap bit x, ap inside_at f)))
  ]
  by_pc-Manned v got f h =
      subst Manned (some-injective _ _ h)
        (put-Manned v held (s.count + 1) s.count s.printed s.locked (omega (arith, ap inside_at f)))
  by_pc-Manned v held f h = subst Manned (some-injective _ _ h) (
      put-Manned v stored p.temporary_storage p.temporary_storage s.printed s.locked
        (omega (arith, ap inside_at f)))
  by_pc-Manned v stored f h = subst Manned (some-injective _ _ h) (
      put-Manned v written p.temporary_storage s.count (s.count ∷ s.printed) s.locked
        (omega (arith, ap inside_at f)))
  by_pc-Manned v written f h =
      subst Manned (some-injective _ _ h) (freed-Manned (record p { pc = waiting }))
  by_pc-Manned v gone f h = cc

-- What an interrupt does.
pub interrupt_inv :
    (i : ℕ) (s : System) {t : System}
    → interrupt i s ≡ some t
    → (p : Process) × (get_elem? s.processes i ≡ some p) × (t ≡ cleanup i p s)
unfolding interrupt
interrupt_inv i s h =
    let (p, e, k) = >>=-eq-some (get_elem? s.processes i) _ h in
    elim (Bool-cases (is_gone p.pc)) [
      | inl g ↦ absurd (cc (rw g at k))
      | inr g ↦ (p, e, sym (some-injective _ _ (rw g at k)))
    ]

Reach-Manned : {b : Bool} {n : ℕ} {s : System} → Reach b n s → Manned s
unfolding step
Reach-Manned start = record { manned = omega arith }
Reach-Manned (next {s} i r h) =
    let (p, e, k) = >>=-eq-some (get_elem? s.processes i) _ h in
    by_pc-Manned s i p e (Reach-Manned r) p.pc refl k
Reach-Manned (interrupted {s} i r a h) =
    let (p, e, k) = interrupt_inv i s h in
    subst Manned (sym k) (freed-Manned s i p e (record p { pc = gone }))

-- A process that can go on.
pub record CanGo (s : System) : Type 0 where
  pub process : ℕ
  pub after : System
  pub goes : step process s ≡ some after

abbrev pub HasGone : Process → Type 0
HasGone p = p.pc ≡ gone

-- A process that is inside can go on, and where the mutex is free one that waits can.
by_pc_goes :
    (i : ℕ) (s : System) (p : Process) (c : Pc)
    → (0 < inside_at c) ⊎ (s.locked ≡ false)
    → ((t : System) × (by_pc i s p c ≡ some t)) ⊎ (c ≡ gone)
unfolding by_pc
by_pc_goes i s p waiting (inl h) = absurd (omega (arith, h))
by_pc_goes i s p waiting (inr h) =
    inl (put i (record p { pc = got }) (record s { locked = true }), rw h refl)
by_pc_goes i s p got h = inl (_, refl)
by_pc_goes i s p held h = inl (_, refl)
by_pc_goes i s p stored h = inl (_, refl)
by_pc_goes i s p written h = inl (_, refl)
by_pc_goes i s p gone h = inr refl

step_goes :
    (i : ℕ) (s : System) (p : Process)
    → get_elem? s.processes i ≡ some p
    → (0 < inside p) ⊎ (s.locked ≡ false)
    → CanGo s ⊎ HasGone p
unfolding step
step_goes i s p e h = elim (by_pc_goes i s p p.pc h) [
  | inl (t, g) ↦ inl (record { process = i; after = t; goes = rw e g })
  | inr g ↦ inr g
]

-- One of some processes can go on, or all of them have exited.
module _ (s : System) (free : s.locked ≡ false) where
  first_that_goes :
      (ps : List Process) (k : ℕ)
      → ((i : ℕ) (p : Process) → get_elem? ps i ≡ some p → get_elem? s.processes (k + i) ≡ some p)
      → CanGo s ⊎ All HasGone ps
  first_that_goes [] k h = inr tt
  first_that_goes (p ∷ ps) k h = elim (step_goes (k + 0) s p (h 0 p refl) (inr free)) [
    | inl c ↦ inl c
    | inr g ↦
        elim (first_that_goes ps (k + 1)
          (λ i q e. subst (λ z. get_elem? s.processes z ≡ some q) (omega arith) (h (suc i) q e))) [
            | inl c ↦ inl c
            | inr gs ↦ inr (g, gs)
          ]
  ]

-- In every reachable state, whatever was interrupted, some process can go on, unless all have exited.
Reach-CanGo :
    {anywhere : Bool} {n : ℕ} {s : System} → Reach anywhere n s → CanGo s ⊎ All HasGone s.processes
Reach-CanGo {s = s} r = elim (Bool-cases s.locked) [
  | inl x ↦
      let (i, p, e, h) =
        total_pos inside s.processes (omega (arith, (Reach-Manned r).manned, ap bit x)) in
      elim (step_goes i s p e (inl h)) [
        | inl c ↦ inl c
        | inr g ↦ absurd (omega (arith, h, ap inside_at g))
      ]
  | inr x ↦
      first_that_goes s x s.processes 0
        (λ i p e. let m : 0 + i ≡ i = omega arith in ap (get_elem? s.processes) m ∙ e)
]
