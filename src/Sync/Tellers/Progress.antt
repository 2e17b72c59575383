-- ===== src/Sync/Tellers/Progress.antt =====
-- No client waits for ever with all others gone.
use dcl140_2023_nov.Prelude.{
  ℕ, ◌+◌, ◌≤◌, ◌<◌, ◌≡◌, ◌⊎◌, refl, inl, inr, Bool, true, false, Option, none, some, List, [], ◌∷◌,
  get_elem?, All, arith,
}
use dcl140_2023_nov.Sync.Sums.{zero_or_pos, total, total_pos}
use dcl140_2023_nov.Sync.Tellers.Defs.{
  Program, Client, arriving, asleep, woken, served, left, skipped, Bank, is_asleep, post, Move,
  patient, again, spurious, finish, step, Reach, signal, by_client,
}
use dcl140_2023_nov.Sync.Tellers.Served.{is_woken, is_served, Reach-Fair}

abbrev pub is_some : Option Bank → Bool
is_some none = false
is_some (some s) = true

-- A step of a client's own, not the end of a wait with no signal.
abbrev pub is_own : Move → Bool
is_own (spurious i) = false
is_own _ = true

abbrev pub Runs : Bank → Type 0
Runs s = (m : Move) × (is_own m ≡ true) × (is_some (step m s) ≡ true)

abbrev pub HasGone : Client → Type 0
HasGone c = (c ≡ left) ⊎ (c ≡ skipped)

abbrev is_ready : Client → ℕ
is_ready arriving = 1
is_ready woken = 1
is_ready served = 1
is_ready _ = 0

signal_can : (s : Bank) → (w : Option ℕ) × (is_some (signal w s) ≡ true)
unfolding signal
signal_can s = elim (zero_or_pos (total is_asleep s.clients)) [
  | inl z ↦ (none, ground (arith, z))
  | inr p ↦ let (j, c, e, h) = total_pos is_asleep s.clients p in (some j, ground (arith, e, h))
]

ready-Runs :
    (s : Bank) (i : ℕ) (c : Client) → get_elem? s.clients i ≡ some c → 0 < is_ready c → Runs s
unfolding step by_client
ready-Runs s i arriving e h = (patient i, refl, rw e refl)
ready-Runs s i woken e h = (again i, refl, rw e refl)
ready-Runs s i served e h = let (w, k) = signal_can (post i s) in (finish i w, refl, rw e k)
ready-Runs s i asleep e h = absurd (omega (arith, h))
ready-Runs s i left e h = absurd (omega (arith, h))
ready-Runs s i skipped e h = absurd (omega (arith, h))

-- Who is woken, and who has a teller, can go on.
woken_ready : (cs : List Client) → total is_woken cs + total is_served cs ≤ total is_ready cs
unfolding total
woken_ready [] = omega arith
woken_ready (c ∷ cs) =
    let e : is_woken c + is_served c ≤ is_ready c = ground arith in omega (arith, e, woken_ready cs)

All-HasGone : (cs : List Client) → total is_ready cs ≡ 0 → total is_asleep cs ≡ 0 → All HasGone cs
unfolding total
All-HasGone [] a b = tt
All-HasGone (c ∷ cs) a b =
    let x : is_ready c ≡ 0 = omega (arith, a) in
    let y : is_asleep c ≡ 0 = omega (arith, b) in
    (ground (arith, x, y), All-HasGone cs (omega (arith, a)) (omega (arith, b)))

-- In every reachable state of the clients of any number of processes of a bank with a teller, some
-- client can make a step of its own, unless all have left.
pub Reach-serving :
    {g : Program} {n : ℕ} {s : Bank}
    → 0 < g.num_tellers
    → Reach g n s
    → Runs s ⊎ All HasGone s.clients
Reach-serving {g} {n} {s} t r =
    let v = Reach-Fair r in
    elim (zero_or_pos (total is_ready s.clients)) [
      | inr p ↦ let (i, c, e, h) = total_pos is_ready s.clients p in inl (ready-Runs s i c e h)
      | inl z ↦
          let k = woken_ready s.clients in
          let a : total is_asleep s.clients ≡ 0 =
            ground (arith, v.all_tellers, v.none_forgotten, k, z, t) in
          inr (All-HasGone s.clients z a)
    ]
