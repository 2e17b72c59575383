-- ===== src/Sync/Jobs/Resources.antt =====
-- No resource is given out twice.
use std.Path.{subst}
use mathlib.Core.Option.{some-injective}
use dcl140_2023_nov.Prelude.{
  ℕ, zero, suc, ◌+◌, ◌≤◌, ◌<◌, ◌≡◌, refl, ap, ◌∙◌, some, get_elem?, All, arith, >>=-eq-some,
}
use dcl140_2023_nov.Sync.Sums.{total, total-set, All-set, All-get_elem?}
use dcl140_2023_nov.Sync.Jobs.Defs.{
  ℤ, pos, neg, Job, num_trucks, num_movers, amt_insur, Group, sem_op, play_with_semaphores, reserve,
  release, Phase, requesting, running, done, refused, leaked, Thread, Company, Move, reserves,
  releases, reserve_fails, release_fails, number, enter, by_phase, step, initial, Reach, start,
  next,
}

sem_op-neg : (n v u : ℕ) → sem_op (neg n) v ≡ some u → u + n ≡ v
unfolding sem_op neg
sem_op-neg zero v u h = ground arith
sem_op-neg (suc n) v u h = ground arith

sem_op-pos : (n v u : ℕ) → sem_op (pos n) v ≡ some u → u ≡ v + n
unfolding sem_op
sem_op-pos zero v u h = ground arith
sem_op-pos (suc n) v u h = ground arith

-- What one call on the group has done.
play_lem :
    (g g' : Group) (a b c : ℤ)
    → play_with_semaphores g a b c ≡ some g'
    → (sem_op a g.truck ≡ some g'.truck)
      × (sem_op b g.mover ≡ some g'.mover)
      × (sem_op c g.insur ≡ some g'.insur)
unfolding play_with_semaphores
play_lem g g' a b c h =
    let (t, e, k) = >>=-eq-some (sem_op a g.truck) _ h in
    let (m, f, l) = >>=-eq-some (sem_op b g.mover) _ k in
    let (i, q, r) = >>=-eq-some (sem_op c g.insur) _ l in
    let w = some-injective _ _ r in
    (
      e ∙ ap (λ (z : Group). some z.truck) w,
      f ∙ ap (λ (z : Group). some z.mover) w,
      q ∙ ap (λ (z : Group). some z.insur) w,
    )

reserve_lem :
    (g g' : Group) (j : Job)
    → reserve g j ≡ some g'
    → (g'.truck + j.trucks ≡ g.truck)
      × (g'.mover + j.movers ≡ g.mover)
      × (g'.insur + j.insurance ≡ g.insur)
reserve_lem g g' j h =
    let (a, b, c) =
      play_lem g g' (neg j.trucks) (neg j.movers) (neg j.insurance) (unfold reserve in h) in
    (
      sem_op-neg j.trucks g.truck g'.truck a,
      sem_op-neg j.movers g.mover g'.mover b,
      sem_op-neg j.insurance g.insur g'.insur c,
    )

release_lem :
    (g g' : Group) (j : Job)
    → release g j ≡ some g'
    → (g'.truck ≡ g.truck + j.trucks)
      × (g'.mover ≡ g.mover + j.movers)
      × (g'.insur ≡ g.insur + j.insurance)
release_lem g g' j h =
    let (a, b, c) =
      play_lem g g' (pos j.trucks) (pos j.movers) (pos j.insurance) (unfold release in h) in
    (
      sem_op-pos j.trucks g.truck g'.truck a,
      sem_op-pos j.movers g.mover g'.mover b,
      sem_op-pos j.insurance g.insur g'.insur c,
    )

-- Whether a thread has its resources.
abbrev pub holds : Phase → ℕ → ℕ
holds running n = n
holds leaked n = n
holds _ n = 0

abbrev pub trucks_of : Thread → ℕ
trucks_of t = holds t.phase t.job.trucks

abbrev pub movers_of : Thread → ℕ
movers_of t = holds t.phase t.job.movers

abbrev pub insurance_of : Thread → ℕ
insurance_of t = holds t.phase t.job.insurance

-- A job that asks for some of each resource, and for no more than there is.
pub record Fits (j : Job) : Type 0 where
  pub trucks : (0 < j.trucks) × (j.trucks ≤ num_trucks)
  pub movers : (0 < j.movers) × (j.movers ≤ num_movers)
  pub insurance : (0 < j.insurance) × (j.insurance ≤ amt_insur)

abbrev pub FitsThread : Thread → Type 0
FitsThread t = Fits t.job

pub record Inv (s : Company) : Type 0 where
  pub trucks : s.group.truck + total trucks_of s.threads ≡ num_trucks
  pub movers : s.group.mover + total movers_of s.threads ≡ num_movers
  pub insurance : s.group.insur + total insurance_of s.threads ≡ amt_insur
  pub fits : All FitsThread s.threads

-- The sums, as thread `i` comes into a phase.
module _ (s : Company) (v : Inv s) (i : ℕ) (t : Thread) (e : get_elem? s.threads i ≡ some t) where
  enter-Inv :
      (p : Phase) (g : Group)
      → g.truck + holds p t.job.trucks ≡ s.group.truck + trucks_of t
      → g.mover + holds p t.job.movers ≡ s.group.mover + movers_of t
      → g.insur + holds p t.job.insurance ≡ s.group.insur + insurance_of t
      → Inv (enter i p t (record s { group = g }))
  enter-Inv p g a b c =
      let u : Thread = record t { phase = p } in
      record {
        trucks = omega (arith, v.trucks, total-set trucks_of s.threads i t u e, a);
        movers = omega (arith, v.movers, total-set movers_of s.threads i t u e, b);
        insurance = omega (arith, v.insurance, total-set insurance_of s.threads i t u e, c);
        fits =
            All-set FitsThread s.threads i u v.fits
              (All-get_elem? FitsThread s.threads i t v.fits e);
      }

by_phase-Inv :
    (m : Move) (s : Company) (t : Thread) (p : Phase) {r : Company}
    → Inv s
    → get_elem? s.threads (number m) ≡ some t
    → t.phase ≡ p
    → by_phase m s t p ≡ some r
    → Inv r
unfolding by_phase
by_phase-Inv (reserves j) s t requesting v e f h =
    let (g, a, b) = >>=-eq-some (reserve s.group t.job) _ h in
    let (x, y, z) = reserve_lem s.group g t.job a in
    subst Inv (some-injective _ _ b) (
      enter-Inv s v j t e running g (ground (arith, f, x)) (ground (arith, f, y))
        (ground (arith, f, z)))
by_phase-Inv (releases j) s t running v e f h =
    let (g, a, b) = >>=-eq-some (release s.group t.job) _ h in
    let (x, y, z) = release_lem s.group g t.job a in
    subst Inv (some-injective _ _ b) (
      enter-Inv s v j t e done g (ground (arith, f, x)) (ground (arith, f, y))
        (ground (arith, f, z)))
by_phase-Inv (reserve_fails j) s t requesting v e f h = subst Inv (some-injective _ _ h) (
    enter-Inv s v j t e refused s.group (ground (arith, f)) (ground (arith, f)) (ground (arith, f)))
by_phase-Inv (release_fails j) s t running v e f h =
    subst Inv (some-injective _ _ h) (
      enter-Inv s v j t e leaked s.group (ground (arith, f)) (ground (arith, f))
        (ground (arith, f)))
by_phase-Inv _ s t _ v e f h = cc

pub Reach-Inv : {s : Company} → Reach s → Inv s
unfolding step initial
Reach-Inv start =
    unfold total in record { trucks = refl; movers = refl; insurance = refl; fits = omega arith }
Reach-Inv (next {s} m r h) =
    let (t, e, k) = >>=-eq-some (get_elem? s.threads (number m)) _ h in
    by_phase-Inv m s t t.phase (Reach-Inv r) e refl k

-- In every reachable state of the moving company the free trucks, movers and insurance and those
-- of the jobs that have reserved and not released them are together the 5 trucks, 12 movers and
-- 1000 units of insurance that the code gives the company.
pub Reach-resources :
    {s : Company}
    → Reach s
    → (s.group.truck + total trucks_of s.threads ≡ num_trucks)
      × (s.group.mover + total movers_of s.threads ≡ num_movers)
      × (s.group.insur + total insurance_of s.threads ≡ amt_insur)
Reach-resources r = let v = Reach-Inv r in (v.trucks, v.movers, v.insurance)
