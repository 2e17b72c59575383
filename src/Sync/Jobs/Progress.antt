-- ===== src/Sync/Jobs/Progress.antt =====
-- The jobs never wait for each other.
use dcl140_2023_nov.Prelude.{
  ℕ, zero, suc, ◌+◌, ◌-◌, ◌≤◌, ◌<◌, ◌≡◌, ◌⊎◌, refl, inl, inr, Bool, true, false, Option, none, some,
  List, [], ◌∷◌, get_elem?, arith,
}
use dcl140_2023_nov.Sync.Sums.{zero_or_pos, total, total_pos, All-get_elem?}
use dcl140_2023_nov.Sync.Jobs.Defs.{
  ℤ, pos, neg, num_trucks, num_movers, amt_insur, Group, sem_op, play_with_semaphores, reserve,
  release, requesting, running, leaked, Thread, Company, Move, reserves, releases, reserve_fails,
  release_fails, by_phase, step, Reach,
}
use dcl140_2023_nov.Sync.Jobs.Resources.{holds, Fits, FitsThread, Reach-Inv}

abbrev pub is_some : Option Company → Bool
is_some none = false
is_some (some s) = true

-- A reservation or a release, and no failure of one.
abbrev pub is_call : Move → Bool
is_call (reserves i) = true
is_call (releases i) = true
is_call (reserve_fails i) = false
is_call (release_fails i) = false

abbrev pub Runs : Company → Type 0
Runs s = (m : Move) × (is_call m ≡ true) × (is_some (step m s) ≡ true)

abbrev pub is_requesting : Thread → ℕ
is_requesting t = elim t.phase [ requesting ↦ 1 | _ ↦ 0 ]

abbrev pub is_running : Thread → ℕ
is_running t = elim t.phase [ running ↦ 1 | _ ↦ 0 ]

abbrev pub has_leaked : Thread → ℕ
has_leaked t = elim t.phase [ leaked ↦ 1 | _ ↦ 0 ]

-- With no thread that holds resources, none are held.
total-holds :
    (n : Thread → ℕ) (ts : List Thread)
    → total is_running ts ≡ 0
    → total has_leaked ts ≡ 0
    → total (λ t. holds t.phase (n t)) ts ≡ 0
unfolding total
total-holds n [] h k = refl
total-holds n (t ∷ ts) h k =
    let a : is_running t ≡ 0 = omega (arith, h) in
    let b : has_leaked t ≡ 0 = omega (arith, k) in
    let c : total is_running ts ≡ 0 = omega (arith, h) in
    let d : total has_leaked ts ≡ 0 = omega (arith, k) in
    let e = total-holds n ts c d in ground (arith, a, b, e)

sem_op-take : (n v : ℕ) → 0 < n → n ≤ v → sem_op (neg n) v ≡ some (v - n)
unfolding sem_op neg
sem_op-take zero v h k = absurd (omega arith)
sem_op-take (suc n) v h k = ground arith

sem_op-give : (n v : ℕ) → 0 < n → sem_op (pos n) v ≡ some (v + n)
unfolding sem_op
sem_op-give zero v h = absurd (omega arith)
sem_op-give (suc n) v h = refl

-- Three operations that can be done are done at once.
play-some :
    (g : Group) (a b c : ℤ) {t m i : ℕ}
    → sem_op a g.truck ≡ some t
    → sem_op b g.mover ≡ some m
    → sem_op c g.insur ≡ some i
    → play_with_semaphores g a b c ≡ some (record { truck = t; mover = m; insur = i })
unfolding play_with_semaphores
play-some g a b c d e f = rw d (rw e (rw f refl))

module _ (s : Company) (i : ℕ) (t : Thread) (e : get_elem? s.threads i ≡ some t)
    (f : Fits t.job) where
  step-reserves :
      t.phase ≡ requesting
      → s.group.truck ≡ num_trucks
      → s.group.mover ≡ num_movers
      → s.group.insur ≡ amt_insur
      → is_some (step (reserves i) s) ≡ true
  unfolding step by_phase reserve
  step-reserves p a b c =
      let j = t.job in
      let h =
        play-some s.group (neg j.trucks) (neg j.movers) (neg j.insurance)
          (sem_op-take j.trucks s.group.truck f.trucks.0 (omega (arith, a, f.trucks.1)))
          (sem_op-take j.movers s.group.mover f.movers.0 (omega (arith, b, f.movers.1)))
          (sem_op-take j.insurance s.group.insur f.insurance.0 (omega (arith, c, f.insurance.1))) in
      rw e (rw p (rw h refl))

  step-releases : t.phase ≡ running → is_some (step (releases i) s) ≡ true
  unfolding step by_phase release
  step-releases p =
      let j = t.job in
      let h =
        play-some s.group (pos j.trucks) (pos j.movers) (pos j.insurance)
          (sem_op-give j.trucks s.group.truck f.trucks.0)
          (sem_op-give j.movers s.group.mover f.movers.0)
          (sem_op-give j.insurance s.group.insur f.insurance.0) in
      rw e (rw p (rw h refl))

is_requesting-phase : (t : Thread) → 0 < is_requesting t → t.phase ≡ requesting
is_requesting-phase t h = ground arith

is_running-phase : (t : Thread) → 0 < is_running t → t.phase ≡ running
is_running-phase t h = ground arith

-- In every reachable state of the moving company in which no release has failed, some thread can
-- reserve or release without waiting, unless none is at either.
pub Reach-calls :
    {s : Company}
    → Reach s
    → total has_leaked s.threads ≡ 0
    → Runs s ⊎ ((total is_requesting s.threads ≡ 0) × (total is_running s.threads ≡ 0))
Reach-calls {s} r h =
    let v = Reach-Inv r in
    elim (zero_or_pos (total is_running s.threads)) [
      | inr k ↦
          let (i, t, e, p) = total_pos is_running s.threads k in
          inl (
            releases i,
            refl,
            step-releases s i t e (All-get_elem? FitsThread s.threads i t v.fits e)
                (is_running-phase t p),
          )
      | inl z ↦ elim (zero_or_pos (total is_requesting s.threads)) [
        | inl y ↦ inr (y, z)
        | inr k ↦
            let (i, t, e, p) = total_pos is_requesting s.threads k in
            inl (
              reserves i,
              refl,
              step-reserves s i t e (All-get_elem? FitsThread s.threads i t v.fits e)
                  (is_requesting-phase t p)
                  (omega (arith, v.trucks, total-holds (λ x. x.job.trucks) s.threads z h))
                  (omega (arith, v.movers, total-holds (λ x. x.job.movers) s.threads z h))
                  (omega (arith, v.insurance, total-holds (λ x. x.job.insurance) s.threads z h)),
            )
      ]
    ]
