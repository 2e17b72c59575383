-- ===== src/Sync/Tellers/Served.antt =====
-- No teller is lost or shared, and no client is forgotten.
use std.Path.{subst}
use mathlib.Core.Option.{some-injective}
use dcl140_2023_nov.Sync.Sums.{total, total-set, total-append}
use dcl140_2023_nov.Prelude.{
  ℕ, zero, suc, ◌+◌, ◌≤◌, ◌≡◌, ◌⊎◌, refl, inl, inr, Option, none, some, List, get_elem?, set, ◌==◌,
  >>=-eq-some, arith, Bool-cases,
}
use dcl140_2023_nov.Sync.Tellers.Defs.{
  Program, clients, all_clients, Client, arriving, asleep, woken, served, left, skipped, Bank,
  initial, move, try_wait, is_asleep, post, Move, hurried, patient, again, spurious, finish, number,
  step, Reach, start, next, signal, by_client,
}

abbrev pub is_woken : Client → ℕ
is_woken woken = 1
is_woken arriving = 0
is_woken asleep = 0
is_woken served = 0
is_woken left = 0
is_woken skipped = 0

abbrev pub is_served : Client → ℕ
is_served served = 1
is_served arriving = 0
is_served asleep = 0
is_served woken = 0
is_served left = 0
is_served skipped = 0

pub record Fair (g : Program) (s : Bank) : Type 0 where
  pub all_tellers : s.tellers + total is_served s.clients ≡ g.num_tellers
  pub none_forgotten : (total is_asleep s.clients ≡ 0) ⊎ (s.tellers ≤ total is_woken s.clients)

module _ (w : Client → ℕ) (z : w arriving ≡ 0) where
  clients_zero : (n : ℕ) → total w (clients n) ≡ 0
  unfolding clients total
  clients_zero zero = refl
  clients_zero (suc n) = omega (arith, z, clients_zero n)

  all_zero : (g : Program) (n : ℕ) → total w (all_clients g n) ≡ 0
  unfolding all_clients total
  all_zero g zero = refl
  all_zero g (suc n) = omega (
    arith,
    total-append w (clients g.num_clients) (all_clients g n),
    clients_zero g.num_clients,
    all_zero g n,
  )

Fair-initial : (g : Program) (n : ℕ) → Fair g (initial g n)
Fair-initial g n = record {
  all_tellers = omega (arith, all_zero is_served refl g n);
  none_forgotten = inl (all_zero is_asleep refl g n);
}

-- The three sums, after one client has changed.
record Sums (cs : List Client) (i : ℕ) (c d : Client) : Type 0 where
  sleepers : total is_asleep (set cs i d) + is_asleep c ≡ total is_asleep cs + is_asleep d
  awake : total is_woken (set cs i d) + is_woken c ≡ total is_woken cs + is_woken d
  busy : total is_served (set cs i d) + is_served c ≡ total is_served cs + is_served d

sums : (cs : List Client) (i : ℕ) (c d : Client) → get_elem? cs i ≡ some c → Sums cs i c d
sums cs i c d h = record {
  sleepers = total-set is_asleep cs i c d h;
  awake = total-set is_woken cs i c d h;
  busy = total-set is_served cs i c d h;
}

-- A client that may try to get a teller, and where it is if it gets none.
Tries : Client → Client → Type 0
Tries c d =
    ((c ≡ arriving) × (d ≡ skipped))
    ⊎ (((c ≡ arriving) × (d ≡ asleep)) ⊎ ((c ≡ woken) × (d ≡ asleep)))

module _ (g : Program) (s : Bank) (v : Fair g s) where
  Fair-woken : (i : ℕ) → get_elem? s.clients i ≡ some asleep → Fair g (move i woken s)
  Fair-woken i e =
      let q = sums s.clients i asleep woken e in
      ground (arith, q.sleepers, q.awake, q.busy, v.all_tellers, v.none_forgotten)

  Fair-try_wait :
      (i : ℕ) (c d : Client) → get_elem? s.clients i ≡ some c → Tries c d → Fair g (try_wait i d s)
  unfolding Tries
  Fair-try_wait i c d e k =
      let q = sums s.clients i c d e in
      let r = sums s.clients i c served e in
      ground (
        arith, q.sleepers, q.awake, q.busy, r.sleepers, r.awake, r.busy, v.all_tellers,
        v.none_forgotten,
      )

  -- Nobody slept, and nobody was woken.
  Fair-post_alone :
      (i : ℕ)
      → get_elem? s.clients i ≡ some served
      → total is_asleep (post i s).clients ≡ 0
      → Fair g (post i s)
  Fair-post_alone i e z =
      let q = sums s.clients i served left e in ground (arith, q.busy, v.all_tellers, z)

  Fair-post_waking :
      (i j : ℕ)
      → get_elem? s.clients i ≡ some served
      → get_elem? (post i s).clients j ≡ some asleep
      → Fair g (move j woken (post i s))
  Fair-post_waking i j e f =
      let q = sums s.clients i served left e in
      let r = sums (post i s).clients j asleep woken f in
      ground (
        arith, q.sleepers, q.awake, q.busy, r.sleepers, r.awake, r.busy, v.all_tellers,
        v.none_forgotten,
      )

  Fair-signal :
      (i : ℕ) (w : Option ℕ) {t : Bank}
      → get_elem? s.clients i ≡ some served
      → signal w (post i s) ≡ some t
      → Fair g t
  unfolding signal
  Fair-signal i none {t} e h = elim (Bool-cases (total is_asleep (post i s).clients == 0)) [
    | inl b ↦ ground (arith, h, b, Fair-post_alone i e)
    | inr b ↦ ground (arith, h, b)
  ]
  Fair-signal i (some j) {t} e h =
      let (c, f, k) = >>=-eq-some (get_elem? (post i s).clients j) _ h in woke c f k
    where
      woke :
          (c : Client)
          → get_elem? (post i s).clients j ≡ some c
          → (elim c [ asleep ↦ some (move j woken (post i s)) | _ ↦ none ]) ≡ some t
          → Fair g t
      woke asleep f k = subst (Fair g) (some-injective _ _ k) (Fair-post_waking i j e f)
      woke arriving f k = cc
      woke woken f k = cc
      woke served f k = cc
      woke left f k = cc
      woke skipped f k = cc

  Fair-by_client :
      (m : Move) (c : Client) {t : Bank}
      → get_elem? s.clients (number m) ≡ some c
      → by_client m s c ≡ some t
      → Fair g t
  unfolding by_client Tries
  Fair-by_client (hurried i) arriving e h =
      subst (Fair g) (some-injective _ _ h) (Fair-try_wait i arriving skipped e (inl (refl, refl)))
  Fair-by_client (patient i) arriving e h =
      subst (Fair g) (some-injective _ _ h)
        (Fair-try_wait i arriving asleep e (inr (inl (refl, refl))))
  Fair-by_client (again i) woken e h =
      subst (Fair g) (some-injective _ _ h)
        (Fair-try_wait i woken asleep e (inr (inr (refl, refl))))
  Fair-by_client (spurious i) asleep e h = subst (Fair g) (some-injective _ _ h) (Fair-woken i e)
  Fair-by_client (finish i w) served e h = Fair-signal i w e h
  Fair-by_client _ _ e h = cc

pub Reach-Fair : {g : Program} {n : ℕ} {s : Bank} → Reach g n s → Fair g s
unfolding step
Reach-Fair {g} {n} start = Fair-initial g n
Reach-Fair {g} (next {s} m r h) =
    let (c, e, k) = >>=-eq-some (get_elem? s.clients (number m)) _ h in
    Fair-by_client g s (Reach-Fair r) m c e k

-- In every reachable state of the bank the tellers that are free and the clients that have one are
-- together all the tellers: no teller is given to two clients, and none is lost.
Reach-tellers :
    {g : Program} {n : ℕ} {s : Bank}
    → Reach g n s
    → s.tellers + total is_served s.clients ≡ g.num_tellers
Reach-tellers r = let v = Reach-Fair r in v.all_tellers

-- In every reachable state of the bank in which a client waits, each free teller has a client that was
-- woken for it.
Reach-woken :
    {g : Program} {n : ℕ} {s : Bank}
    → Reach g n s
    → (total is_asleep s.clients ≡ 0) ⊎ (s.tellers ≤ total is_woken s.clients)
Reach-woken r = let v = Reach-Fair r in v.none_forgotten
