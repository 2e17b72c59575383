-- ===== src/Shell/Reap/Noticed.antt =====
-- No child that died is forgotten, though a SIGCHLD may be lost.
use std.Path.{subst}
use mathlib.Core.Option.{some-injective}
use dcl140_2023_nov.Prelude.{
  ℕ, ◌+◌, ◌<◌, ◌≡◌, ◌⊎◌, refl, inl, inr, ap, ◌∙◌, Bool, true, false, Option, none, some, [], ◌∷◌,
  get_elem?, arith, ◌==◌, ◌||◌, if◌then◌else◌, ◌>>=◌, >>=-eq-some, Bool-cases,
}
use dcl140_2023_nov.Sync.Sums.{zero_or_pos, total, total-set, total-append, total_pos}
use dcl140_2023_nov.Shell.Reap.Zombies.{
  Child, running, dead, reaped, State, Move, forks, dies, deliver, takes, finds_none, waited,
  is_dead, is_reaped, put, die, take_dead, wait_for, wait_foreground, fork_child, step, Reach,
  start, next,
}

record Inv (s : State) : Type 0 where
  noticed : (total is_dead s.children ≡ 0) ⊎ ((s.pending || s.handling) ≡ true)
  reported : s.reports ≡ total is_reaped s.children

module _ (s : State) (v : Inv s) where
  die-Inv :
      (i : ℕ) (c : Child) {t : State} → get_elem? s.children i ≡ some c → die i s c ≡ some t → Inv t
  unfolding die
  die-Inv i running e h =
      let r = total-set is_reaped s.children i running dead e in
      subst Inv (some-injective _ _ h)
        (record { noticed = inr refl; reported = omega (arith, r, v.reported) })
  die-Inv i dead e h = cc
  die-Inv i reaped e h = cc

  -- A dead child is taken.
  taken-Inv :
      (i : ℕ) (f : Option ℕ)
      → get_elem? s.children i ≡ some dead
      → Inv (put i reaped (record s { reports = s.reports + 1; foreground = f }))
  taken-Inv i f e =
      let r = total-set is_reaped s.children i dead reaped e in
      let d = total-set is_dead s.children i dead reaped e in
      record {
        noticed = elim v.noticed [ inl z ↦ absurd (omega (arith, z, d)) | inr b ↦ inr b ];
        reported = omega (arith, r, v.reported);
      }

  take_dead-Inv :
      (i : ℕ) (c : Child) {t : State}
      → get_elem? s.children i ≡ some c
      → take_dead i s c ≡ some t
      → Inv t
  unfolding take_dead
  take_dead-Inv i running e h = cc
  take_dead-Inv i dead e h = subst Inv (some-injective _ _ h) (taken-Inv i s.foreground e)
  take_dead-Inv i reaped e h = cc

  wait_for-Inv :
      (i : ℕ) (c : Child) {t : State}
      → get_elem? s.children i ≡ some c
      → wait_for i s c ≡ some t
      → Inv t
  unfolding wait_for
  wait_for-Inv i running e h = cc
  wait_for-Inv i dead e h = subst Inv (some-injective _ _ h) (taken-Inv i none e)
  wait_for-Inv i reaped e h =
      subst Inv (some-injective _ _ h) (record { noticed = v.noticed; reported = v.reported })

  wait_foreground-Inv : (f : Option ℕ) {t : State} → wait_foreground s f ≡ some t → Inv t
  unfolding wait_foreground
  wait_foreground-Inv none h = cc
  wait_foreground-Inv (some i) h =
      let (c, e, k) = >>=-eq-some (get_elem? s.children i) _ h in wait_for-Inv i c e k

  fork_child-Inv : (b : Bool) (f : Option ℕ) {t : State} → fork_child b s f ≡ some t → Inv t
  unfolding fork_child total
  fork_child-Inv b none h =
      let d = total-append is_dead s.children (running ∷ []) in
      let r = total-append is_reaped s.children (running ∷ []) in
      subst Inv (some-injective _ _ h) (record {
        noticed = elim v.noticed [ inl z ↦ inl (omega (arith, z, d)) | inr x ↦ inr x ];
        reported = omega (arith, r, v.reported);
      })
  fork_child-Inv b (some i) h = cc

-- What is done behind a test.
unless_lem {ℓ} :
    {A : Type ℓ} (b : Bool) (x : Option A) {t : A} → (if b then none else x) ≡ some t → x ≡ some t
unless_lem true x h = cc
unless_lem false x h = h

when_lem {ℓ} :
    {A : Type ℓ} (b : Bool) (x : Option A) {t : A}
    → (if b then x else none) ≡ some t
    → (b ≡ true) × (x ≡ some t)
when_lem true x h = (refl, h)
when_lem false x h = cc

step-Inv : (m : Move) (s : State) {t : State} → Inv s → step m s ≡ some t → Inv t
unfolding step
step-Inv (forks b) s v h = fork_child-Inv s v b s.foreground (unless_lem s.handling _ h)
step-Inv (dies i) s v h =
    let (c, e, k) = >>=-eq-some (get_elem? s.children i) _ h in die-Inv s v i c e k
step-Inv deliver s v h =
    let (p, k) = when_lem s.pending _ (unless_lem s.handling _ h) in
    subst Inv (some-injective _ _ k) (record { noticed = inr refl; reported = v.reported })
step-Inv (takes i) s v h =
    let (z, k) = when_lem s.handling _ h in
    let (c, e, l) = >>=-eq-some (get_elem? s.children i) _ k in take_dead-Inv s v i c e l
step-Inv finds_none s v h =
    let (z, k) = when_lem s.handling _ h in
    let (d, l) = when_lem (total is_dead s.children == 0) _ k in
    subst Inv (some-injective _ _ l)
      (record { noticed = inl (ground (arith, d)); reported = v.reported })
step-Inv waited s v h = wait_foreground-Inv s v s.foreground (unless_lem s.handling _ h)

Reach-Inv : {s : State} → Reach s → Inv s
unfolding total
Reach-Inv start = record { noticed = inl refl; reported = refl }
Reach-Inv (next {s} m r h) = step-Inv m s (Reach-Inv r) h

-- The handler can start, or can take a child.
abbrev pub by_handler : Move → Bool
by_handler deliver = true
by_handler (takes i) = true
by_handler _ = false

pub record Notices (s : State) : Type 0 where
  pub move : Move
  pub is_handlers : by_handler move ≡ true
  pub after : State
  pub goes : step move s ≡ some after

take_dead_goes :
    (s : State) (i : ℕ) (c : Child) → 0 < is_dead c → (t : State) × (take_dead i s c ≡ some t)
unfolding take_dead
take_dead_goes s i running h = absurd (omega (arith, h))
take_dead_goes s i dead h = (put i reaped (record s { reports = s.reports + 1 }), refl)
take_dead_goes s i reaped h = absurd (omega (arith, h))

handling-Notices : (s : State) → s.handling ≡ true → 0 < total is_dead s.children → Notices s
unfolding step
handling-Notices s z h =
    let (i, c, e, d) = total_pos is_dead s.children h in
    let (t, k) = take_dead_goes s i c d in
    record {
      move = takes i;
      is_handlers = refl;
      after = t;
      goes =
          ap (λ b. if b then (get_elem? s.children i >>= take_dead i s) else none) z
          ∙ ap (λ o. o >>= take_dead i s) e
          ∙ k;
    }

pending-Notices : (s : State) → s.handling ≡ false → s.pending ≡ true → Notices s
unfolding step
pending-Notices s z p =
    let t : State = record s { pending = false; handling = true } in
    record {
      move = deliver;
      is_handlers = refl;
      after = t;
      goes =
          ap (λ b. if b then none else if s.pending then some t else none) z
          ∙ ap (λ b. if b then some t else none) p;
    }

-- In every reachable state of the shell, its children and the handler of SIGCHLD, where a signal
-- is lost that comes while another is pending, the handler can start or take a child if one is
-- dead and not waited for; and as many statuses were reported from a wait as children were taken.
pub Reach-Notices :
    {s : State}
    → Reach s
    → ((total is_dead s.children ≡ 0) ⊎ Notices s) × (s.reports ≡ total is_reaped s.children)
Reach-Notices {s} r =
    let v = Reach-Inv r in
    (
      elim (zero_or_pos (total is_dead s.children)) [
        | inl z ↦ inl z
        | inr h ↦ inr (elim (Bool-cases s.handling) [
          | inl z ↦ handling-Notices s z h
          | inr z ↦ elim v.noticed [
            | inl d ↦ absurd (omega (arith, d, h))
            | inr b ↦ pending-Notices s z (ground (arith, b, z))
          ]
        ])
      ],
      v.reported,
    )
