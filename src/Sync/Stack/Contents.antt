-- ===== src/Sync/Stack/Contents.antt =====
-- The stack of the producer and the consumer is last in, first out.
use dcl140_2023_nov.Prelude.{
  ℕ, suc, ◌-◌, ◌<◌, ◌≡◌, ◌≢◌, ◌⊎◌, inl, inr, some, List, [], ◌∷◌, ◌++◌, length, arith, ◌==◌,
  Bool-cases, get_elem?, take, take-set, take-suc, >>=-eq-some, ap, sym, ◌∙◌,
}
use dcl140_2023_nov.Sync.Stack.Defs.{
  stack_size, asleep, signal, System, Move, pushed, popped, push_lock, push_test, pop_test, step,
  Reach,
}
use dcl140_2023_nov.Sync.Stack.Invariant.{Inv, Reach-Inv}

abbrev pub contents : System → List ℕ
contents s = take s.index s.buffer

-- A push into a full stack and a pop of an empty one go to sleep; else a push appends its
-- character and a pop takes the last one. No other move touches the stack.
abbrev pub LastInFirstOut : Move → System → System → Type 0
LastInFirstOut push_test s t =
    ((s.index ≡ stack_size) × (contents t ≡ contents s) × (t.pusher.pc ≡ asleep))
    ⊎ ((s.index < stack_size) × (contents t ≡ contents s ++ s.pusher.char ∷ []))
LastInFirstOut pop_test s t =
    ((s.index ≡ 0) × (contents t ≡ contents s) × (t.popper.pc ≡ asleep))
    ⊎ ((0 < s.index) × (contents s ≡ contents t ++ t.popper.char ∷ []))
LastInFirstOut _ s t = contents t ≡ contents s

pushed-grew :
    (s : System)
    → s.index < length s.buffer
    → contents (pushed s) ≡ contents s ++ s.pusher.char ∷ []
pushed-grew s l = take-set s.buffer s.index s.pusher.char l

popped-shrank :
    (s : System) {t : System}
    → s.index ≢ 0
    → popped s ≡ some t
    → contents s ≡ contents t ++ t.popper.char ∷ []
popped-shrank s {t} n h =
    let (c, e, q) = >>=-eq-some (get_elem? s.buffer (s.index - 1)) _ h in
    let z : suc (s.index - 1) ≡ s.index = omega arith in
    let w : t
        ≡ record s { index = s.index - 1; popper = record s.popper { pc = signal; char = c } } =
      cc in
    rw w (ap (λ i. take i s.buffer) (sym z) ∙ take-suc s.buffer (s.index - 1) c e)

push_test_lem :
    (s : System) {t : System} → Inv s → step push_test s ≡ some t → LastInFirstOut push_test s t
unfolding step
push_test_lem s {t} v h = elim (Bool-cases (s.index == stack_size)) [
  | inl b ↦ inl (ground (arith, h, b), ground (arith, h, b), ground (arith, h, b))
  | inr b ↦
      let l : s.index < stack_size = ground (arith, v.bound, b) in
      let w : t ≡ pushed s = ground (arith, h, b) in
      inr (l, ap contents w ∙ pushed-grew s (omega (arith, l, v.room)))
]

pop_test_lem : (s : System) {t : System} → step pop_test s ≡ some t → LastInFirstOut pop_test s t
unfolding step
pop_test_lem s {t} h = elim (Bool-cases (s.index == 0)) [
  | inl b ↦ inl (ground (arith, h, b), ground (arith, h, b), ground (arith, h, b))
  | inr b ↦
      let n : s.index ≢ 0 = ground (arith, b) in
      inr (omega arith, popped-shrank s {t = t} n (ground (arith, h, b)))
]

-- Every move of a reachable state does to the stack what its description says: a push into a full
-- stack and a pop of an empty one go to sleep, else a push appends its character and a pop takes
-- the last one, and no other move touches the stack.
pub step-LastInFirstOut :
    (m : Move) {s t : System} → Reach s → step m s ≡ some t → LastInFirstOut m s t
unfolding step
step-LastInFirstOut push_test {s} r h = push_test_lem s (Reach-Inv r) h
step-LastInFirstOut pop_test {s} r h = pop_test_lem s h
step-LastInFirstOut (push_lock c) r h = ground (arith, h)
step-LastInFirstOut _ r h = ground (arith, h)
