-- ===== src/Lookup/Start.antt =====
-- How the servers of lookup_proj start.
use dcl140_2023_nov.Prelude.{ℕ, Bytes, Option, some}

-- What a server writes before it exits: its usage, by its name; the words of `perror`; or a text of its
-- own about an argument.
pub data Message : Type 0 where
  usage : Bytes → Message
  perror : Bytes → Message
  no_key : Bytes → Message
  no_pipe : Bytes → Message

-- A server has exited with a status, or serves.
pub data Start (R : Type 0) : Type 0 where
  exits : Message → ℕ → Start R
  serves : R → Start R

-- `DIE(x)` of dict.h.
pub die : {R : Type 0} → Bytes → Option (Start R)
die message = some (exits (perror message) 1)
