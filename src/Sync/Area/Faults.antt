-- ===== src/Sync/Area/Faults.antt =====
-- What the set-up does in fact.
use std.Path.{subst}
use mathlib.Core.Option.{some-injective}
use dcl140_2023_nov.Prelude.{
  ℕ, zero, suc, ◌≡◌, ◌≢◌, ◌⊎◌, refl, inl, inr, ap, sym, Bool, true, false, Option, none, some, [],
  ◌∷◌, get_elem?, set, arith, >>=-eq-some,
}
use dcl140_2023_nov.Sync.Area.Defs.{
  proc_mutex, Pc, create, open_file, truncate, initialise, access, running, killed, Process, System,
  put, by_pc, step, fresh_processes, Reach, start, next,
}

abbrev pub is_some : Option System → Bool
is_some none = false
is_some (some s) = true

-- A place of a process that never gets to the lock, and the creator's value of `createdHere` there.
abbrev LostAt : Pc → ℕ → Bool → Type 0
LostAt create n x = (n ≡ 1) × (x ≡ false)
LostAt open_file n x = ⊥
LostAt truncate n x = (n ≡ 0) × (x ≡ true)
LostAt initialise n x = (n ≡ 0) × (x ≡ true)
LostAt access n x = (n ≡ 0) × (x ≡ true)
LostAt running n x = ⊥
LostAt killed n x = (n ≡ 0) × (x ≡ true)

-- The one process of a system, which no file of the right size is behind.
pub record Alone (s : System) : Type 0 where
  pub process : Process
  pub only : s.processes ≡ process ∷ []
  pub lost : LostAt process.pc process.created_here s.exists
  pub no_size : s.expanded ≡ false
  pub no_inits : s.inits ≡ 0

module _ (s : System) (a : Alone s) where
  put-Alone :
      (c : Pc) (n : ℕ) (x y : Bool)
      → LostAt c n x
      → y ≡ false
      → Alone (put 0 (record { pc = c; created_here = n }) (record s { exists = x; expanded = y }))
  put-Alone c n x y l e =
      let p : Process = record { pc = c; created_here = n } in
      record {
        process = p;
        only = ap (λ ps. set ps 0 p) a.only;
        lost = l;
        no_size = e;
        no_inits = a.no_inits;
      }

  -- Where the process is, and what it is about to do.
  lost_in : (c : Pc) → a.process.pc ≡ c → LostAt c a.process.created_here s.exists
  lost_in c f = subst (λ z. LostAt z a.process.created_here s.exists) f a.lost

  by_pc-Alone :
      (c : Pc) {t : System} → a.process.pc ≡ c → by_pc proc_mutex 0 s a.process c ≡ some t → Alone t
  unfolding by_pc
  by_pc-Alone create f h =
      let l = lost_in create f in
      subst Alone (some-injective _ _ (rw l.1 at h))
        (put-Alone truncate 0 true s.expanded (refl, refl) a.no_size)
  by_pc-Alone open_file f h = absurd (lost_in open_file f)
  by_pc-Alone truncate f h =
      let l = lost_in truncate f in
      subst Alone (some-injective _ _ (rw a.no_size at rw l.0 at h))
        (put-Alone initialise 0 s.exists false (refl, l.1) refl)
  by_pc-Alone initialise f h =
      let l = lost_in initialise f in
      subst Alone (some-injective _ _ (rw l.0 at h))
        (put-Alone access 0 s.exists s.expanded (refl, l.1) a.no_size)
  by_pc-Alone access f h =
      let l = lost_in access f in
      subst Alone (some-injective _ _ (rw a.no_size at h))
        (put-Alone killed a.process.created_here s.exists false l refl)
  by_pc-Alone running f h = cc
  by_pc-Alone killed f h = cc

  get_lem : (i : ℕ) {p : Process} → get_elem? s.processes i ≡ some p → (i ≡ 0) × (a.process ≡ p)
  get_lem zero h = (refl, some-injective _ _ (rw a.only at h))
  get_lem (suc i) h = let k = rw a.only at h in cc

  step-Alone : (i : ℕ) {t : System} → step proc_mutex i s ≡ some t → Alone t
  unfolding step
  step-Alone i {t} h =
      let (p, e, k) = >>=-eq-some (get_elem? s.processes i) _ h in
      let (z, q) = get_lem i e in
      by_pc-Alone a.process.pc refl (
        subst (λ j. by_pc proc_mutex j s a.process a.process.pc ≡ some t) z
          (subst (λ (o : Process). by_pc proc_mutex i s o o.pc ≡ some t) (sym q) k))

  get_process : get_elem? s.processes 0 ≡ some a.process
  get_process = rw a.only refl

  moves_or_killed :
      (c : Pc) → a.process.pc ≡ c → (c ≡ killed) ⊎ (is_some (step proc_mutex 0 s) ≡ true)
  unfolding step by_pc
  moves_or_killed create f = inr (ground (arith, f, get_process))
  moves_or_killed open_file f = absurd (lost_in open_file f)
  moves_or_killed truncate f = inr (ground (arith, f, get_process))
  moves_or_killed initialise f = inr (ground (arith, f, get_process))
  moves_or_killed access f = inr (ground (arith, f, get_process))
  moves_or_killed running f = absurd (lost_in running f)
  moves_or_killed killed f = inl refl

Reach-Alone : {s : System} → Reach proc_mutex 1 s → Alone s
unfolding fresh_processes
Reach-Alone start = record {
  process = record { pc = create; created_here = 1 };
  only = refl;
  lost = (refl, refl);
  no_size = refl;
  no_inits = refl;
}
Reach-Alone (next {s} i r h) = step-Alone s (Reach-Alone r) i h

-- The one process of proc_mutex.c that runs alone never initialises the mutex and never gets it:
-- it can go on until it is killed.
Reach-killed :
    {s : System}
    → Reach proc_mutex 1 s
    → (s.inits ≡ 0)
      × ((p : Process) × (s.processes ≡ p ∷ [])
          × (p.pc ≢ running)
          × ((p.pc ≡ killed) ⊎ (is_some (step proc_mutex 0 s) ≡ true)))
Reach-killed {s} r =
    let a = Reach-Alone r in
    (
      a.no_inits,
      (a.process, a.only, (λ f. lost_in s a running f), moves_or_killed s a a.process.pc refl),
    )
