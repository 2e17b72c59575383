-- ===== src/Sync/Area/SetUp.antt =====
-- Who initialises the shared area, and who is killed.
use std.Path.{subst}
use mathlib.Core.Option.{some-injective}
use dcl140_2023_nov.Prelude.{
  ℕ, ◌+◌, ◌≤◌, ◌≡◌, ◌⊎◌, refl, inl, inr, ap, Bool, true, false, some, get_elem?, arith, >>=-eq-some,
  ◌||◌, Bool-cases,
}
use dcl140_2023_nov.Sync.Sums.{total, total-set, get_elem?-le-total}
use dcl140_2023_nov.Sync.Area.Defs.{
  Program, Pc, create, open_file, truncate, initialise, access, running, killed, Process, System,
  truth, put, by_pc, step, Reach, start, next,
}
use dcl140_2023_nov.Sync.Area.Weights.{
  bit, behind_at, killed_at, pending, behind, is_killed, size_on, fresh_zero,
}
use dcl140_2023_nov.Sync.Area.Once.{Reach-Once}

record Sized (s : System) : Type 0 where
  sized : (s.expanded ≡ true) ⊎ (total behind s.processes ≡ 0)
  unkilled : total is_killed s.processes ≡ 0

module _ (g : Program) where
  module _ (s : System) (i : ℕ) (p : Process) (e : get_elem? s.processes i ≡ some p) where
    module _ (always : g.expands ≡ true) (v : Sized s) where
      put-Sized :
          (c : Pc) (n m : ℕ) (x y : Bool)
          → killed_at c ≡ 0
          → (y ≡ true) ⊎ ((s.expanded ≡ y) × (behind_at c ≡ 0))
          → Sized (
              put i
                (record { pc = c; created_here = n })
                (record s { exists = x; expanded = y; inits = m }))
      put-Sized c n m x y b d =
          let q : Process = record { pc = c; created_here = n } in
          let r = get_elem?-le-total behind s.processes i p e in
          record {
            sized = size_on v.sized (total-set behind s.processes i p q e) r d;
            unkilled = omega (arith, v.unkilled, total-set is_killed s.processes i p q e, b);
          }

      expanded_lem : behind_at p.pc ≡ 1 → s.expanded ≡ true
      expanded_lem b = elim v.sized [
        | inl x ↦ x
        | inr z ↦ absurd (omega (arith, b, z, get_elem?-le-total behind s.processes i p e))
      ]

      by_pc-Sized : (c : Pc) {t : System} → p.pc ≡ c → by_pc g i s p c ≡ some t → Sized t
      unfolding by_pc
      by_pc-Sized create f h = elim (Bool-cases s.exists) [
        | inl x ↦
            subst Sized (some-injective _ _ (rw x at h))
              (put-Sized open_file p.created_here s.inits true s.expanded refl (inr (refl, refl)))
        | inr x ↦
            subst Sized (some-injective _ _ (rw x at h))
              (put-Sized truncate g.b_true s.inits true s.expanded refl (inr (refl, refl)))
      ]
      by_pc-Sized open_file f h =
          subst Sized (some-injective _ _ h)
            (put-Sized truncate p.created_here s.inits s.exists s.expanded refl (inr (refl, refl)))
      by_pc-Sized truncate f h = subst Sized (some-injective _ _ h) (
          put-Sized initialise p.created_here s.inits s.exists
            (s.expanded || (g.expands || truth p.created_here)) refl (inl (ground (arith, always))))
      by_pc-Sized initialise f h =
          let x = expanded_lem (ap behind_at f) in
          elim (Bool-cases (truth p.created_here)) [
            | inl z ↦
                subst Sized (some-injective _ _ (rw x at rw z at h))
                  (put-Sized access p.created_here (s.inits + 1) s.exists true refl (inl refl))
            | inr z ↦
                subst Sized (some-injective _ _ (rw z at h))
                  (put-Sized access p.created_here s.inits s.exists s.expanded refl (inl x))
          ]
      by_pc-Sized access f h =
          let x = expanded_lem (ap behind_at f) in
          subst Sized (some-injective _ _ (rw x at h))
            (put-Sized running p.created_here s.inits s.exists true refl (inl refl))
      by_pc-Sized running f h = cc
      by_pc-Sized killed f h = cc

  Reach-Sized : {n : ℕ} {s : System} → g.expands ≡ true → Reach g n s → Sized s
  unfolding step
  Reach-Sized {n} x start = record {
    sized = inr (fresh_zero g behind refl n);
    unkilled = fresh_zero g is_killed refl n;
  }
  Reach-Sized x (next {s} i r h) =
      let (p, e, k) = >>=-eq-some (get_elem? s.processes i) _ h in
      by_pc-Sized s i p e x (Reach-Sized x r) p.pc refl k

  -- However many processes come to the shared area, if B_FALSE is 0 and B_TRUE is 1, its locks are
  -- initialised once at most; and if each process expands the file, none is killed.
  pub Reach-once :
      {n : ℕ} {s : System}
      → g.b_false ≡ 0
      → g.b_true ≡ 1
      → Reach g n s
      → (s.inits ≤ 1) × ((g.expands ≡ false) ⊎ (total is_killed s.processes ≡ 0))
  Reach-once {n} {s} x y r = (
    inits_bound (total pending s.processes) s.exists (Reach-Once g x y r).once,
    elim (Bool-cases g.expands) [ inl z ↦ inr (Reach-Sized z r).unkilled | inr z ↦ inl z ],
  )
    where
      inits_bound : {k : ℕ} (m : ℕ) (b : Bool) → k + m ≡ bit b → k ≤ 1
      inits_bound m true h = omega (arith, h)
      inits_bound m false h = omega (arith, h)
