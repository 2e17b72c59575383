-- ===== src/Sync/SharedCounter/Exact.antt =====
-- What the processes print, where only the one that has the mutex is interrupted, at any point.
use dcl140_2023_nov.Prelude.{ℕ, ◌+◌, ◌≤◌, ◌<◌, length, ◌≡◌, List, [], ◌∷◌, All}
use dcl140_2023_nov.Sync.Sums.{total}
use dcl140_2023_nov.Sync.SharedCounter.Defs.{
  Pc, waiting, got, held, stored, written, gone, Process, System, inside,
}
use dcl140_2023_nov.Sync.SharedCounter.Progress.{bit}

-- Numbers that fall from below a bound, none of them 0.
unfoldable pub Below : ℕ → List ℕ → Type 0
Below b [] = Unit
Below b (x ∷ xs) = (0 < x) × (x < b) × Below x xs

-- A process that is about to write the counter has the next value.
abbrev IsExact : ℕ → Process → Type 0
IsExact count p = p.pc ≡ held → p.temporary_storage ≡ count + 1

abbrev holds_at : Pc → ℕ
holds_at waiting = 0
holds_at got = 0
holds_at held = 1
holds_at stored = 0
holds_at written = 0
holds_at gone = 0

abbrev pub prints_at : Pc → ℕ
prints_at waiting = 0
prints_at got = 0
prints_at held = 0
prints_at stored = 1
prints_at written = 0
prints_at gone = 0

abbrev pub gone_at : Pc → ℕ
gone_at waiting = 0
gone_at got = 0
gone_at held = 0
gone_at stored = 0
gone_at written = 0
gone_at gone = 1

abbrev holds : Process → ℕ
holds p = holds_at p.pc

-- A process between its store and its `printf`, and one that was interrupted.
abbrev pub prints : Process → ℕ
prints p = prints_at p.pc

abbrev pub has_gone : Process → ℕ
has_gone p = gone_at p.pc

record Inv (s : System) : Type 0 where
  owned : total inside s.processes ≡ bit s.locked
  exact : All (IsExact s.count) s.processes
  -- all that was printed is below a bound, and the number that is to be printed is not
  bound : ℕ
  bound_pos : 0 < bound
  bound_le : bound + total prints s.processes ≤ s.count + 1
  shown : Below bound s.printed
  missed : s.count ≤ length s.printed + total prints s.processes + total has_gone s.processes
