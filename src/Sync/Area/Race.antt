-- ===== src/Sync/Area/Race.antt =====
-- A process that comes to the area before its creator has initialised it.
use std.Path.{subst}
use mathlib.Core.Option.{some-injective}
use dcl140_2023_nov.Prelude.{
  ℕ, suc, ◌≡◌, refl, true, Option, some, List, [], ◌∷◌, get_elem?, ◌>>=◌, >>=-eq-some,
}
use dcl140_2023_nov.Sync.Area.Defs.{
  Program, truncate, running, Process, System, by_pc, step, fresh_processes, Reach, start, next,
}

module _ (g : Program) where
  run : List ℕ → System → Option System
  run [] s = some s
  run (i ∷ is) s = step g i s >>= run is

  Reach-run : {n : ℕ} (is : List ℕ) {s t : System} → Reach g n s → run is s ≡ some t → Reach g n t
  unfolding run
  Reach-run {n} [] r e = subst (Reach g n) (some-injective _ _ e) r
  Reach-run (i ∷ is) {s} r e =
      let (t, p, q) = >>=-eq-some (step g i s) (run is) e in Reach-run is (next i r p) q

  -- The first process creates the file; the second goes all the way to its lock.
  abbrev steps : List ℕ
  steps = 0 ∷ 1 ∷ 1 ∷ 1 ∷ 1 ∷ 1 ∷ []

  -- In a program with B_FALSE 0 in which each process expands the file, two processes and any more
  -- can come to a state in which the second has used the lock and nobody has initialised it.
  Reach-unready :
      (n : ℕ)
      → g.b_false ≡ 0
      → g.expands ≡ true
      → (s : System) × (p : Process) × Reach g (suc (suc n)) s
        × (s.inits ≡ 0)
        × (get_elem? s.processes 1 ≡ some p)
        × (p.pc ≡ running)
  unfolding run step by_pc fresh_processes
  Reach-unready n x y =
      let p : Process = record { pc = running; created_here = g.b_false } in
      let first : Process = record { pc = truncate; created_here = g.b_true } in
      let s : System = record {
        exists = true;
        expanded = true;
        inits = 0;
        processes = first ∷ p ∷ fresh_processes g n;
      } in
      (s, p, Reach-run steps start (simp (x, y) refl), refl, refl, refl)
