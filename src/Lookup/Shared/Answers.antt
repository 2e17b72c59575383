-- ===== src/Lookup/Shared/Answers.antt =====
-- What a client finds in the shared memory while it holds the semaphore.
use dcl140_2023_nov.Prelude.{ℕ, ◌+◌, ◌≡◌, ◌≢◌, ◌⊎◌, inl, inr, false, Option, some, arith, Bytes}
use dcl140_2023_nov.Lookup.Shared.Defs.{
  Pc, write, alert, await, release, Client, waiting, looking, telling, Memory, Who, first, second,
  client, client_step, answer, server_step, by_client, by_server, step, Reach, start, next, leave,
  exit, other,
}

-- Whether a client holds the first semaphore.
abbrev pub inside : Pc → ℕ
inside write = 1
inside alert = 1
inside await = 1
inside release = 1
inside _ = 0

-- The word of a client is in the memory, the server is at work for it, and its answer is there.
pub record Served (meaning : Bytes → Option Bytes) (s : Memory) (c : Client) : Type 0 where
  pub alerting : c.pc ≡ alert → s.word ≡ c.word
  pub awaiting : c.pc ≡ await → s.word ≡ c.word
  pub at_work :
      c.pc ≡ await
      → ((s.server ≡ waiting) × (s.sem1 ≡ 2))
        ⊎ (((s.server ≡ looking) × (s.sem1 ≡ 1))
            ⊎ (((s.server ≡ telling) × (s.sem1 ≡ 1) × (s.text ≡ answer (meaning c.word)))
                ⊎ ((s.server ≡ waiting) × (s.sem1 ≡ 0) × (s.text ≡ answer (meaning c.word)))))
  pub answered : c.pc ≡ release → s.text ≡ answer (meaning c.word)

pub record Inv (meaning : Bytes → Option Bytes) (s : Memory) : Type 0 where
  pub excluded : s.sem0 + inside s.one.pc + inside s.two.pc ≡ 1
  pub idle : ((s.one.pc ≡ await) ⊎ (s.two.pc ≡ await)) ⊎ ((s.server ≡ waiting) × (s.sem1 ≡ 0))
  pub for_one : Served meaning s s.one
  pub for_two : Served meaning s s.two

module _ (meaning : Bytes → Option Bytes) where
  server-Inv : {s t : Memory} → Inv meaning s → server_step meaning s ≡ some t → Inv meaning t
  unfolding server_step
  server-Inv {s} {t} v h = ground arith

  client-Inv : (w : Who) {s t : Memory} → Inv meaning s → client_step w s ≡ some t → Inv meaning t
  unfolding client_step
  client-Inv first {s} {t} v h = ground arith
  client-Inv second {s} {t} v h = ground arith

  exit-Inv :
      (w : Who) {s t : Memory}
      → Inv meaning s
      → (client (other w) s).pc ≢ await
      → exit w s ≡ some t
      → Inv meaning t
  unfolding exit
  exit-Inv first {s} {t} v n h = ground arith
  exit-Inv second {s} {t} v n h = ground arith

  Reach-Inv : {s : Memory} → Reach meaning false s → Inv meaning s
  unfolding step
  Reach-Inv (start one two word text) = ground arith
  Reach-Inv (next (by_client w) r e) = client-Inv w (Reach-Inv r) e
  Reach-Inv (next by_server r e) = server-Inv (Reach-Inv r) e
  Reach-Inv (leave w r (inl a) e) = cc
  Reach-Inv (leave w r (inr n) e) = exit-Inv w (Reach-Inv r) n e

  -- If a client exits only while the other does not wait for the server, then in every reachable
  -- state of the shared memory a client that is about to release the semaphore is the only one
  -- that has it, and the text is the server's answer to its word.
  pub Reach-answer :
      {s : Memory} (w : Who)
      → Reach meaning false s
      → (client w s).pc ≡ release
      → (s.text ≡ answer (meaning (client w s).word)) × (inside s.one.pc + inside s.two.pc ≡ 1)
  Reach-answer {s} first r e =
      let v = Reach-Inv r in (v.for_one.answered e, ground (arith, v.excluded, e))
  Reach-answer {s} second r e =
      let v = Reach-Inv r in (v.for_two.answered e, ground (arith, v.excluded, e))
