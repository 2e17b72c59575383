-- ===== src/Sync/Tellers/Termination.antt =====
-- How many steps the clients make.
use std.Path.{subst}
use mathlib.Core.Option.{some-injective}
use dcl140_2023_nov.Prelude.{
  ℕ, zero, suc, ◌+◌, ◌*◌, ◌≤◌, ◌≡◌, refl, inl, inr, Option, none, some, List, [], ◌∷◌, get_elem?,
  arith, ◌==◌, ◌>>=◌, >>=-eq-some, Bool-cases,
}
use native.Mathlib.Nat.{suc-mul}
use dcl140_2023_nov.Sync.Sums.{total, total-set, total-append}
use dcl140_2023_nov.Sync.Tellers.Defs.{
  Program, clients, all_clients, Client, arriving, asleep, woken, served, left, skipped, Bank,
  initial, move, try_wait, is_asleep, post, Move, hurried, patient, again, spurious, finish, number,
  step, signal, by_client,
}

-- What a client has before it.
abbrev weight : Client → ℕ
weight arriving = 3
weight asleep = 2
weight woken = 3
weight served = 2
weight left = 0
weight skipped = 0

abbrev weights : Bank → ℕ
weights s = total weight s.clients

-- The moves of the clients, and the wake-ups with no signal.
abbrev own : Move → ℕ
own (spurious i) = 0
own _ = 1

abbrev unsignalled_at : Move → ℕ
unsignalled_at (spurious i) = 1
unsignalled_at _ = 0

signal_cost : (w : Option ℕ) (s : Bank) {t : Bank} → signal w s ≡ some t → weights t ≤ weights s + 1
unfolding signal
signal_cost none s h = elim (Bool-cases (total is_asleep s.clients == 0)) [
  | inl z ↦ subst (λ x. weights x ≤ weights s + 1) (some-injective _ _ (rw z at h)) (omega arith)
  | inr z ↦ let k = rw z at h in cc
]
signal_cost (some j) s {t} h = let (c, e, k) = >>=-eq-some (get_elem? s.clients j) _ h in woke c e k
  where
    woke :
        (c : Client)
        → get_elem? s.clients j ≡ some c
        → (elim c [ asleep ↦ some (move j woken s) | _ ↦ none ]) ≡ some t
        → weights t ≤ weights s + 1
    woke asleep e k =
        subst (λ x. weights x ≤ weights s + 1) (some-injective _ _ k)
          (omega (arith, total-set weight s.clients j asleep woken e))
    woke arriving e k = cc
    woke woken e k = cc
    woke served e k = cc
    woke left e k = cc
    woke skipped e k = cc

module _ (s : Bank) where
  -- A client that arrives or was woken, and where it is if it gets no teller.
  try_wait_cost :
      (i : ℕ) (c d : Client)
      → get_elem? s.clients i ≡ some c
      → weight c ≡ 3
      → weight d ≤ 2
      → 1 + weights (try_wait i d s) ≤ weights s
  try_wait_cost i c d e a b = elim (Bool-cases (s.tellers == 0)) [
    | inl z ↦ rw z (omega (arith, total-set weight s.clients i c d e, a, b))
    | inr z ↦ rw z (omega (arith, total-set weight s.clients i c served e, a))
  ]

  by_client_cost :
      (m : Move) (c : Client) {t : Bank}
      → get_elem? s.clients (number m) ≡ some c
      → by_client m s c ≡ some t
      → own m + weights t ≤ weights s + unsignalled_at m
  unfolding by_client
  by_client_cost (hurried i) arriving e h =
      subst (λ x. 1 + weights x ≤ weights s + 0) (some-injective _ _ h)
        (omega (arith, try_wait_cost i arriving skipped e refl (omega arith)))
  by_client_cost (patient i) arriving e h =
      subst (λ x. 1 + weights x ≤ weights s + 0) (some-injective _ _ h)
        (omega (arith, try_wait_cost i arriving asleep e refl (omega arith)))
  by_client_cost (again i) woken e h =
      subst (λ x. 1 + weights x ≤ weights s + 0) (some-injective _ _ h)
        (omega (arith, try_wait_cost i woken asleep e refl (omega arith)))
  by_client_cost (spurious i) asleep e h =
      subst (λ x. 0 + weights x ≤ weights s + 1) (some-injective _ _ h)
        (omega (arith, total-set weight s.clients i asleep woken e))
  by_client_cost (finish i w) served e h =
      omega (arith, signal_cost w (post i s) h, total-set weight s.clients i served left e)
  by_client_cost _ _ e h = cc

-- A sequence of moves.
unfoldable pub run : List Move → Bank → Option Bank
run [] s = some s
run (m ∷ ms) s = step m s >>= run ms

pub made : List Move → ℕ
made [] = 0
made (m ∷ ms) = own m + made ms

pub unsignalled : List Move → ℕ
unsignalled [] = 0
unsignalled (m ∷ ms) = unsignalled_at m + unsignalled ms

run_cost :
    (ms : List Move) (s : Bank) {t : Bank}
    → run ms s ≡ some t
    → made ms + weights t ≤ weights s + unsignalled ms
unfolding run made unsignalled step
run_cost [] s h = subst (λ z. 0 + weights z ≤ weights s + 0) (some-injective _ _ h) (omega arith)
run_cost (m ∷ ms) s h =
    let (p, x, y) = >>=-eq-some (step m s) (run ms) h in
    let (c, e, k) = >>=-eq-some (get_elem? s.clients (number m)) _ x in
    omega (arith, run_cost ms p y, by_client_cost s m c e k)

clients-weight : (n : ℕ) → total weight (clients n) ≡ 3 * n
unfolding clients total
clients-weight zero = refl
clients-weight (suc n) = omega (arith, clients-weight n)

all_clients-weight :
    (g : Program) (n : ℕ) → total weight (all_clients g n) ≡ n * (3 * g.num_clients)
unfolding all_clients total
all_clients-weight g zero = omega arith
all_clients-weight g (suc n) = omega (
  arith,
  total-append weight (clients g.num_clients) (all_clients g n),
  clients-weight g.num_clients,
  all_clients-weight g n,
  suc-mul n (3 * g.num_clients),
)

-- Whatever the schedule, the clients of any number of processes of a bank make at most three steps
-- of their own for each client, and one more for each spurious wake-up.
pub made-le :
    (g : Program) (n : ℕ) (ms : List Move) {s : Bank}
    → run ms (initial g n) ≡ some s
    → made ms ≤ n * (3 * g.num_clients) + unsignalled ms
made-le g n ms h = omega (arith, run_cost ms (initial g n) h, all_clients-weight g n)
