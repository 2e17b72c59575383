-- ===== src/Sync/SharedCounter/Lost.antt =====
-- What an interrupt of a process that waits for the mutex does.
use std.Path.{subst}
use mathlib.Core.Option.{some-injective}
use dcl140_2023_nov.Prelude.{
  ℕ, suc, ◌≡◌, refl, inl, true, Option, some, List, [], ◌∷◌, ◌>>=◌, >>=-eq-some,
}
use dcl140_2023_nov.Sync.SharedCounter.Defs.{
  written, gone, Process, System, by_pc, step, interrupt, fresh_processes, Reach, start, next,
  interrupted,
}

-- A step of a process, and ^C in one.
data Event : Type 0 where
  runs stops : ℕ → Event

run : List Event → System → Option System
run [] s = some s
run (runs i ∷ es) s = step i s >>= run es
run (stops i ∷ es) s = interrupt i s >>= run es

Reach-run :
    {n : ℕ} (es : List Event) {s t : System} → Reach true n s → run es s ≡ some t → Reach true n t
unfolding run
Reach-run {n} [] r e = subst (Reach true n) (some-injective _ _ e) r
Reach-run (runs i ∷ es) {s} r e =
    let (t, p, q) = >>=-eq-some (step i s) (run es) e in Reach-run es (next i r p) q
Reach-run (stops i ∷ es) {s} r e =
    let (t, p, q) = >>=-eq-some (interrupt i s) (run es) e in
    Reach-run es (interrupted i r (inl refl) p) q

-- The first process has the mutex and has read the counter when the second is interrupted; the third
-- gets the mutex then.
abbrev events : List Event
events = runs 0 ∷ runs 0 ∷ stops 1 ∷ runs 2 ∷ runs 2 ∷ runs 0 ∷ runs 0 ∷ runs 2 ∷ runs 2 ∷ []

-- Three processes and any more can come, by an interrupt of one that does not have the mutex, to a
-- state in which two of them have counted and the counter is 1.
Reach-lost :
    (n : ℕ)
    → (s : System) × Reach true (suc (suc (suc n))) s × (s.count ≡ 1) × (s.printed ≡ 1 ∷ 1 ∷ [])
unfolding run step interrupt by_pc fresh_processes
Reach-lost n =
    let p : Process = record { pc = written; temporary_storage = 1 } in
    let q : Process = record { pc = gone; temporary_storage = 0 } in
    let s : System = record {
      locked = true;
      count = 1;
      printed = 1 ∷ 1 ∷ [];
      processes = p ∷ q ∷ p ∷ fresh_processes n;
    } in
    (s, Reach-run events start refl, refl, refl)
