-- ===== src/Sync/Tests/Counting.antt =====
-- The processes that count under a mutex in concrete states.
use dcl140_2023_nov.Prelude.{true, [], ◌∷◌}
use dcl140_2023_nov.Sync.SharedCounter.Defs.{System, written, gone}

-- The first process is interrupted between its store and its `printf`; the second has counted then.
abbrev counted : System
counted = record {
  locked = true;
  count = 2;
  printed = 2 ∷ [];
  processes =
      record { pc = gone; temporary_storage = 1 }
      ∷ record { pc = written; temporary_storage = 2 }
      ∷ [];
}
