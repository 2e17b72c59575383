-- ===== src/Shell/Reap/Handler.antt =====
-- The handler reaps every dead child once.
use mathlib.Core.List.{append-nil, append_assoc}
use dcl140_2023_nov.Prelude.{
  ℕ, zero, suc, ◌<◌, ◌≡◌, ◌≢◌, ◌⊎◌, inl, inr, refl, none, some, List, [], ◌∷◌, ◌++◌, length, arith,
  false, ◌==◌, ◌∙◌, codes,
}
use dcl140_2023_nov.Shell.Process.{Msg, perror, echild}
use dcl140_2023_nov.Shell.Run.Defs.{WaitStatus, display_status}
use dcl140_2023_nov.Shell.Reap.Defs.{
  nobody, error, Kernel, returned, aborted, child_handler, child_handler_sh8,
}

not_eq : (a b : ℕ) → a ≢ b → (a == b) ≡ false
not_eq a b n = ground arith

-- What is printed about some children, in order.
unfoldable pub reports : List (ℕ × WaitStatus) → List Msg
reports [] = []
reports ((pid, st) ∷ l) = display_status pid st ++ reports l

-- The table when as many dead children as the list has were taken off.
unfoldable pub after : (k : Kernel) → List (ℕ × WaitStatus) → k.Table → k.Table
after k [] s = (k.waitpid s).1
after k (c ∷ l) s = after k l (k.waitpid s).1

-- With no dead child, `waitpid` says that there are live ones or none at all, and changes nothing.
abbrev pub QuietWhenNoneDead : Kernel → Type 0
QuietWhenNoneDead k =
    (s : k.Table)
    → k.dead s ≡ []
    → (((k.waitpid s).0 ≡ nobody) ⊎ ((k.waitpid s).0 ≡ error echild))
      × (k.dead (k.waitpid s).1 ≡ [])

module _ (k : Kernel) (quiet : QuietWhenNoneDead k) where
  -- If waitpid answers 0 or ECHILD when no child is dead, the handler of sh9 ends after one round
  -- more than there are dead children, prints the status of each in order, and leaves errno as it
  -- was and no dead child.
  pub child_handler-reaps :
      (l : List (ℕ × WaitStatus)) (fuel errno : ℕ) (s : k.Table) (out : List Msg)
      → k.dead s ≡ l
      → length l < fuel
      → (child_handler k fuel errno s out ≡ some (returned (after k l s) errno (out ++ reports l)))
        × (k.dead (after k l s) ≡ [])
  unfolding child_handler after reports
  child_handler-reaps l zero errno s out h f = absurd (omega arith)
  child_handler-reaps [] (suc fuel) errno s out h f = (
    elim (quiet s h).0 [ inl e ↦ rw (e, append-nil) | inr e ↦ rw (e, append-nil) ],
    (quiet s h).1,
  )
  child_handler-reaps ((pid, st) ∷ l) (suc fuel) errno s out h f =
      let (e, d) = k.takes_first s pid st l h in
      let (r, q) =
        child_handler-reaps l fuel errno (k.waitpid s).1 (out ++ display_status pid st) d
          (omega arith) in
      (rw e (r ∙ rw append_assoc), q)

-- The handler of sh8 has no way out of an error other than ECHILD: where waitpid goes on failing
-- so, no number of rounds ends its loop.
child_handler_sh8_spins :
    (k : Kernel) (e : ℕ)
    → e ≢ echild
    → ((s : k.Table) → (k.waitpid s).0 ≡ error e)
    → (fuel : ℕ) (s : k.Table) (errno : ℕ) (status : WaitStatus) (out : List Msg)
    → child_handler_sh8 k fuel s errno status out ≡ none
unfolding child_handler_sh8
child_handler_sh8_spins k e n all zero s errno status out = refl
child_handler_sh8_spins k e n all (suc fuel) s errno status out =
    rw (all s)
      (rw (not_eq e echild n) (child_handler_sh8_spins k e n all fuel (k.waitpid s).1 e status _))

-- In the same place the handler of sh9 aborts in its first round, and says why.
pub child_handler_aborts :
    (k : Kernel) (e : ℕ) (fuel errno : ℕ) (s : k.Table) (out : List Msg)
    → e ≢ echild
    → (k.waitpid s).0 ≡ error e
    → child_handler k (suc fuel) errno s out
      ≡ some (aborted (out ++ perror (codes "waitpid") e ∷ []))
unfolding child_handler
child_handler_aborts k e fuel errno s out n h = rw h (rw (not_eq e echild n))
