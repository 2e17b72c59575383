-- ===== src/Lookup/Shared/Progress.antt =====
-- The clients and the server never wait for each other.
use dcl140_2023_nov.Prelude.{
  ◌+◌, ◌≡◌, ◌⊎◌, refl, inl, inr, Bool, true, false, Bool-cases, Option, none, some, arith, Bytes,
  ◌==◌,
}
use dcl140_2023_nov.Lookup.Shared.Defs.{
  Pc, grab, write, alert, await, release, compare_text, copy, not_found, was_found, Client, Memory,
  Who, first, second, client, Move, by_client, by_server, step, Reach, client_step, server_step,
  start, next, leave, exit, exited, ServerPc, waiting, looking, telling,
}
use dcl140_2023_nov.Lookup.Shared.Answers.{inside}

abbrev pub is_some : Option Memory → Bool
is_some none = false
is_some (some s) = true

module _ (meaning : Bytes → Option Bytes) where
  -- Some step is possible.
  abbrev pub Runs : Memory → Type 0
  Runs s = (m : Move) × (is_some (step meaning m s) ≡ true)

  abbrev pub HasEnded : Client → Type 0
  HasEnded c = ((c.pc ≡ not_found) ⊎ (c.pc ≡ was_found)) ⊎ (c.pc ≡ exited)

  -- The first semaphore is free, or one client has it.
  record IsHeld (s : Memory) : Type 0 where
    held : s.sem0 + inside s.one.pc + inside s.two.pc ≡ 1

  server-IsHeld : {s t : Memory} → IsHeld s → server_step meaning s ≡ some t → IsHeld t
  unfolding server_step
  server-IsHeld {s} {t} v h = ground arith

  client-IsHeld : (w : Who) {s t : Memory} → IsHeld s → client_step w s ≡ some t → IsHeld t
  unfolding client_step
  client-IsHeld first {s} {t} v h = ground arith
  client-IsHeld second {s} {t} v h = ground arith

  exit-IsHeld : (w : Who) {s t : Memory} → IsHeld s → exit w s ≡ some t → IsHeld t
  unfolding exit
  exit-IsHeld first {s} {t} v h = ground arith
  exit-IsHeld second {s} {t} v h = ground arith

  Reach-IsHeld : {anywhere : Bool} {s : Memory} → Reach meaning anywhere s → IsHeld s
  unfolding step
  Reach-IsHeld (start one two word text) = record { held = refl }
  Reach-IsHeld (next (by_client w) r e) = client-IsHeld w (Reach-IsHeld r) e
  Reach-IsHeld (next by_server r e) = server-IsHeld (Reach-IsHeld r) e
  Reach-IsHeld (leave w r a e) = exit-IsHeld w (Reach-IsHeld r) e

  module _ (s : Memory) (v : IsHeld s) where
    serving-Runs : (p : ServerPc) → s.server ≡ p → (s.sem1 == 0) ≡ false → Runs s
    unfolding step server_step
    serving-Runs waiting e z = (by_server, ground (arith, e, z))
    serving-Runs looking e z = (by_server, ground (arith, e))
    serving-Runs telling e z = (by_server, ground (arith, e, z))

    awaiting-Runs : (w : Who) → (client w s).pc ≡ await → Runs s
    unfolding step client_step
    awaiting-Runs w e = elim (Bool-cases (s.sem1 == 0)) [
      | inl z ↦ (by_client w, ground (arith, e, z))
      | inr z ↦ serving-Runs s.server refl z
    ]

    inside-Runs : (w : Who) (p : Pc) → (client w s).pc ≡ p → inside p ≡ 1 → Runs s
    unfolding step client_step
    inside-Runs w write e i = (by_client w, ground (arith, e))
    inside-Runs w alert e i = (by_client w, ground (arith, e))
    inside-Runs w await e i = awaiting-Runs w e
    inside-Runs w release e i = (by_client w, ground (arith, e))
    inside-Runs w grab e i = absurd (omega (arith, i))
    inside-Runs w compare_text e i = absurd (omega (arith, i))
    inside-Runs w copy e i = absurd (omega (arith, i))
    inside-Runs w not_found e i = absurd (omega (arith, i))
    inside-Runs w was_found e i = absurd (omega (arith, i))
    inside-Runs w exited e i = absurd (omega (arith, i))

    -- The semaphore is free, or the client that holds it can go on or the server can.
    holder-Runs : (s.sem0 == 0) ≡ true → Runs s
    holder-Runs z =
        let e : (inside s.one.pc ≡ 1) ⊎ (inside s.two.pc ≡ 1) = ground (arith, z, v.held) in
        elim e [
          | inl i ↦ inside-Runs first s.one.pc refl i
          | inr i ↦ inside-Runs second s.two.pc refl i
        ]

    client-Runs : (w : Who) (p : Pc) → (client w s).pc ≡ p → Runs s ⊎ HasEnded (client w s)
    unfolding step client_step
    client-Runs w grab e = elim (Bool-cases (s.sem0 == 0)) [
      | inl z ↦ inl (holder-Runs z)
      | inr z ↦ inl (by_client w, ground (arith, e, z))
    ]
    client-Runs w write e = inl (by_client w, ground (arith, e))
    client-Runs w alert e = inl (by_client w, ground (arith, e))
    client-Runs w await e = inl (awaiting-Runs w e)
    client-Runs w release e = inl (by_client w, ground (arith, e))
    client-Runs w compare_text e = inl (by_client w, ground (arith, e))
    client-Runs w copy e = inl (by_client w, ground (arith, e))
    client-Runs w not_found e = inr (inl (inl e))
    client-Runs w was_found e = inr (inl (inr e))
    client-Runs w exited e = inr (inr e)

  -- In every reachable state of the shared memory, whenever a client that has its result exits, a
  -- client or the server can make a step, unless both clients have their result.
  pub Reach-goes_on :
      {anywhere : Bool} {s : Memory}
      → Reach meaning anywhere s
      → Runs s ⊎ (HasEnded s.one × HasEnded s.two)
  Reach-goes_on {s = s} r =
      let v = Reach-IsHeld r in
      elim (client-Runs s v first s.one.pc refl) [
        | inl m ↦ inl m
        | inr e ↦ elim (client-Runs s v second s.two.pc refl) [ inl m ↦ inl m | inr f ↦ inr (e, f) ]
      ]
