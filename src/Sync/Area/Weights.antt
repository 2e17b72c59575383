-- ===== src/Sync/Area/Weights.antt =====
-- What a process of the set-up counts for in a sum over the processes.
use dcl140_2023_nov.Prelude.{
  ℕ, zero, suc, ◌+◌, ◌≤◌, ◌≡◌, ◌⊎◌, refl, inl, inr, sym, ◌∙◌, Bool, true, false, arith, ◌||◌,
}
use dcl140_2023_nov.Sync.Sums.{total}
use dcl140_2023_nov.Sync.Area.Defs.{
  Program, Pc, create, open_file, truncate, initialise, access, running, killed, Process, truth,
  fresh_processes,
}

abbrev pub bit : Bool → ℕ
bit true = 1
bit false = 0

-- A process that takes itself for the creator: in front of the `open`, with its initialisation before it,
-- and right at that.
abbrev pub early_at : Pc → ℕ → ℕ
early_at create n = bit (truth n)
early_at open_file n = bit (truth n)
early_at _ n = 0

abbrev pub pending_at : Pc → ℕ → ℕ
pending_at truncate n = bit (truth n)
pending_at initialise n = bit (truth n)
pending_at _ n = 0

abbrev pub ready_at : Pc → ℕ → ℕ
ready_at initialise n = bit (truth n)
ready_at _ n = 0

-- A process that counts on the size of the file.
abbrev pub behind_at : Pc → ℕ
behind_at initialise = 1
behind_at access = 1
behind_at running = 1
behind_at _ = 0

abbrev pub killed_at : Pc → ℕ
killed_at killed = 1
killed_at _ = 0

abbrev pub early : Process → ℕ
early p = early_at p.pc p.created_here

abbrev pub pending : Process → ℕ
pending p = pending_at p.pc p.created_here

abbrev pub ready : Process → ℕ
ready p = ready_at p.pc p.created_here

abbrev pub behind : Process → ℕ
behind p = behind_at p.pc

abbrev pub is_killed : Process → ℕ
is_killed p = killed_at p.pc

pub on_size : (x y z : Bool) → ((x || (y || z)) ≡ true) ⊎ ((x ≡ (x || (y || z))) × (bit z ≡ 0))
on_size x y z = ground arith

-- The size of the file, as a sum over the processes that count on it changes.
pub size_on :
    {x y : Bool} {k l j o : ℕ}
    → (x ≡ true) ⊎ (l ≡ 0)
    → k + o ≡ l + j
    → o ≤ l
    → (y ≡ true) ⊎ ((x ≡ y) × (j ≡ 0))
    → (y ≡ true) ⊎ (k ≡ 0)
size_on w h r (inl z) = inl z
size_on (inl w) h r (inr (w', z)) = inl (sym w' ∙ w)
size_on (inr w) h r (inr (w', z)) = inr (omega (arith, h, w, z))

module _ (g : Program) where
  pub fresh_zero :
      (w : Process → ℕ)
      → w (record { pc = create; created_here = g.b_false }) ≡ 0
      → (n : ℕ) → total w (fresh_processes g n) ≡ 0
  unfolding fresh_processes total
  fresh_zero w z zero = refl
  fresh_zero w z (suc n) = omega (arith, z, fresh_zero w z n)
