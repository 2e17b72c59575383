-- ===== src/Sync/Area/Once.antt =====
-- The creator of the area initialises it once.
use std.Path.{subst}
use mathlib.Core.Option.{some-injective}
use dcl140_2023_nov.Prelude.{
  ℕ, ◌+◌, ◌≡◌, ◌⊎◌, refl, inl, inr, Bool, true, false, some, get_elem?, arith, if◌then◌else◌,
  >>=-eq-some, ◌||◌, Bool-cases,
}
use dcl140_2023_nov.Sync.Sums.{total, total-set, get_elem?-le-total}
use dcl140_2023_nov.Sync.Area.Defs.{
  Program, Pc, create, open_file, truncate, initialise, access, running, killed, Process, System,
  truth, put, by_pc, step, Reach, start, next,
}
use dcl140_2023_nov.Sync.Area.Weights.{
  bit, early_at, pending_at, ready_at, early, pending, ready, on_size, size_on, fresh_zero,
}

-- In a program with the values of C the creator initialises the area, and has expanded it before.
pub record Once (s : System) : Type 0 where
  pub once : s.inits + total pending s.processes ≡ bit s.exists
  pub not_early : total early s.processes ≡ 0
  pub sized : (s.expanded ≡ true) ⊎ (total ready s.processes ≡ 0)

module _ (g : Program) where
  module _ (s : System) (i : ℕ) (p : Process) (e : get_elem? s.processes i ≡ some p) where
    module _ (zero_is : g.b_false ≡ 0) (one_is : g.b_true ≡ 1) (v : Once s) where
      old_early : early p ≡ 0
      old_early = omega (arith, v.not_early, get_elem?-le-total early s.processes i p e)

      put-Once :
          (c : Pc) (n m : ℕ) (x y : Bool)
          → m + pending_at c n + bit s.exists ≡ s.inits + pending p + bit x
          → early_at c n ≡ 0
          → (y ≡ true) ⊎ ((s.expanded ≡ y) × (ready_at c n ≡ 0))
          → Once (
              put i
                (record { pc = c; created_here = n })
                (record s { exists = x; expanded = y; inits = m }))
      put-Once c n m x y a b d =
          let q : Process = record { pc = c; created_here = n } in
          let r = get_elem?-le-total ready s.processes i p e in
          record {
            once = omega (arith, v.once, total-set pending s.processes i p q e, a);
            not_early = omega (arith, v.not_early, total-set early s.processes i p q e, b);
            sized = size_on v.sized (total-set ready s.processes i p q e) r d;
          }

      by_pc-Once : (c : Pc) {t : System} → p.pc ≡ c → by_pc g i s p c ≡ some t → Once t
      unfolding by_pc
      by_pc-Once create f h =
          let z : truth p.created_here ≡ false = ground (arith, old_early, f) in
          elim (Bool-cases s.exists) [
            | inl x ↦ subst Once (some-injective _ _ (rw x at h)) (
                put-Once open_file p.created_here s.inits true s.expanded (ground (arith, f, x))
                  (ground (arith, z)) (inr (refl, refl)))
            | inr x ↦ subst Once (some-injective _ _ (rw x at h)) (
                put-Once truncate g.b_true s.inits true s.expanded (ground (arith, f, x, one_is))
                  refl (inr (refl, refl)))
          ]
      by_pc-Once open_file f h =
          let z : truth p.created_here ≡ false = ground (arith, old_early, f) in
          subst Once (some-injective _ _ h) (
            put-Once truncate p.created_here s.inits s.exists s.expanded (ground (arith, f, z)) refl
              (inr (refl, refl)))
      by_pc-Once truncate f h = subst Once (some-injective _ _ h) (
          put-Once initialise p.created_here s.inits s.exists
            (s.expanded || (g.expands || truth p.created_here)) (ground (arith, f)) refl
            (on_size s.expanded g.expands (truth p.created_here)))
      by_pc-Once initialise f h = elim (Bool-cases (truth p.created_here)) [
        | inr z ↦ subst Once (some-injective _ _ (rw z at h)) (
            put-Once access p.created_here s.inits s.exists s.expanded (ground (arith, f, z)) refl
              (inr (refl, refl)))
        | inl z ↦
            let x : s.expanded ≡ true =
              ground (arith, v.sized, get_elem?-le-total ready s.processes i p e, f, z) in
            subst Once (some-injective _ _ (rw x at rw z at h)) (
              put-Once access p.created_here (s.inits + 1) s.exists true (ground (arith, f, z)) refl
                (inl refl))
      ]
      by_pc-Once access f h = subst Once (some-injective _ _ h) (
          put-Once (if s.expanded then running else killed) p.created_here s.inits s.exists
            s.expanded (ground (arith, f)) (ground arith) (inr (refl, ground arith)))
      by_pc-Once running f h = cc
      by_pc-Once killed f h = cc

  pub Reach-Once : {n : ℕ} {s : System} → g.b_false ≡ 0 → g.b_true ≡ 1 → Reach g n s → Once s
  unfolding step
  Reach-Once {n} x y start = record {
    once = omega (arith, fresh_zero g pending refl n);
    not_early = fresh_zero g early (ground (arith, x)) n;
    sized = inr (fresh_zero g ready refl n);
  }
  Reach-Once x y (next {s} i r h) =
      let (p, e, k) = >>=-eq-some (get_elem? s.processes i) _ h in
      by_pc-Once s i p e x y (Reach-Once x y r) p.pc refl k
