-- ===== src/Lookup/Shared/Race.antt =====
-- A client reads the text behind its release of the semaphore.
use std.Path.{subst}
use mathlib.Core.Option.{some-injective}
use dcl140_2023_nov.Prelude.{
  >>=-eq-some, ◌≡◌, refl, false, true, Bool, none, inl, Option, some, List, [], ◌∷◌, Bytes, codes,
  str_eq, ◌>>=◌,
}
use dcl140_2023_nov.Lookup.Shared.Defs.{
  was_found, Memory, initial, first, second, Move, by_client, by_server, step, Reach, start, next,
  leave, exit, exited, not_found, release, waiting, Client, client_step, server_step, await,
  telling,
}

module _ (meaning : Bytes → Option Bytes) where
  unfoldable pub run : List Move → Memory → Option Memory
  run [] s = some s
  run (m ∷ ms) s = step meaning m s >>= run ms

  -- Some moves one after the other.
  pub Reach-run :
      {anywhere : Bool} (ms : List Move) {s t : Memory}
      → Reach meaning anywhere s
      → run ms s ≡ some t
      → Reach meaning anywhere t
  unfolding run
  Reach-run {anywhere} [] r e = subst (Reach meaning anywhere) (some-injective _ _ e) r
  Reach-run (m ∷ ms) {s} r e =
      let (t, p, q) = >>=-eq-some (step meaning m s) (run ms) e in Reach-run ms (next m r p) q

  -- The first client up to its release, the second up to where the server has answered it, and then the
  -- text of the first.
  abbrev pub overtaken : List Move
  overtaken =
      by_client first
      ∷ by_client first
      ∷ by_client first
      ∷ by_server
      ∷ by_server
      ∷ by_server
      ∷ by_client first
      ∷ by_client first
      ∷ by_client second
      ∷ by_client second
      ∷ by_client second
      ∷ by_server
      ∷ by_server
      ∷ by_client first
      ∷ by_client first
      ∷ []

  -- Whatever the words of the two clients, if the dictionary has a text for the second word other
  -- than XXXX, a state can be reached in which the first client ends with FOUND and that text.
  pub Reach-overtaken :
      (one two text : Bytes)
      → meaning two ≡ some text
      → str_eq text (codes "XXXX") ≡ false
      → (s : Memory) × Reach meaning false s
        × (s.one.word ≡ one)
        × (s.one.pc ≡ was_found)
        × (s.one.text ≡ text)
  unfolding run step client_step server_step
  Reach-overtaken one two text m x =
      let s : Memory = record (initial one two two text) {
        sem0 = 0;
        sem1 = 1;
        server = telling;
        one = record { pc = was_found; word = one; text = text };
        two = record { pc = await; word = two; text = [] };
      } in
      (s, Reach-run overtaken (start one two [] []) (rw (m, x)), refl, refl, refl)

  -- The first client up to its result, and the second up to its wait; then the wait of the second.
  abbrev behind_result : List Move
  behind_result =
      by_client first
      ∷ by_client first
      ∷ by_client first
      ∷ by_server
      ∷ by_server
      ∷ by_server
      ∷ by_client first
      ∷ by_client first
      ∷ by_client first
      ∷ by_client second
      ∷ by_client second
      ∷ by_client second
      ∷ []

  -- Whatever the words of the two clients, if the dictionary does not have the first, a state can be
  -- reached in which the second client is behind its wait, the server has not begun with its word, and
  -- the text is XXXX: at the exit of the first the system undoes the alert of the second.
  Reach-undone :
      (one two : Bytes)
      → meaning one ≡ none
      → (s : Memory) × Reach meaning true s
        × (s.two.pc ≡ release)
        × (s.two.word ≡ two)
        × (s.server ≡ waiting)
        × (s.text ≡ codes "XXXX")
  unfolding run step client_step server_step exit str_eq
  Reach-undone one two m =
      let gone : Client = record { pc = not_found; word = one; text = [] } in
      let waits : Client = record { pc = await; word = two; text = [] } in
      let s : Memory = record (initial one two two (codes "XXXX")) {
        sem0 = 0;
        sem1 = 2;
        one = gone;
        two = waits;
      } in
      let r : Reach meaning true s = Reach-run behind_result (start one two [] []) (rw m refl) in
      let t : Memory = record s {
        sem1 = 0;
        one = record gone { pc = exited };
        two = record waits { pc = release };
      } in
      (t, next (by_client second) (leave first r (inl refl) refl) refl, refl, refl, refl, refl)
