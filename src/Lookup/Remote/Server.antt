-- ===== src/Lookup/Remote/Server.antt =====
-- lookup_proj/udp_server.c, usock_server.c and isock_server.c: their loops over the requests. The
-- `lookup` that they are linked with is a parameter.
use dcl140_2023_nov.Prelude.{
  ℕ, Option, none, some, List, [], ◌∷◌, ◌++◌, take, drop, length, ltb, ◌==◌, if◌then◌else◌, Bytes,
  codes, ◌>>=◌,
}
use dcl140_2023_nov.Lookup.Record.{Dictrec, Code, found, notfound, unavail}

abbrev pub word_size : ℕ
word_size = 32

-- How a server ends: its replies in order, at the end of the requests or by DIE.
pub data Served : Type 0 where
  waiting : List Bytes → Served
  died : List Bytes → Served

abbrev pub replied : Bytes → Served → Served
replied r (waiting rs) = waiting (r ∷ rs)
replied r (died rs) = died (r ∷ rs)

-- FOUND and NOTFOUND are answered; a reply that cannot be sent is only reported.
unfoldable pub respond : Code → Dictrec → Option Bytes
respond found tryit = some (tryit.text ++ 0 ∷ [])
respond notfound tryit = some (codes "XXXX" ++ 0 ∷ [])
respond unavail tryit = none

-- Bytes that are read into a field, over what it held.
abbrev pub overwrite : Bytes → Bytes → Bytes
overwrite bytes field = bytes ++ drop (length bytes) field

-- The string in a field; with no NUL a use of it reads behind the field, which is a fault.
unfoldable pub string_in : Bytes → Option Bytes
string_in [] = none
string_in (c ∷ field) = if c == 0 then some [] else (string_in field >>= λ w. some (c ∷ w))

module _ {S : Type 0} (lookup : S → Dictrec → Option (Code × Dictrec × S)) where
  -- The switch, and the rest of the loop.
  unfoldable pub respond_and : (Dictrec → S → Option Served) → Code × Dictrec × S → Option Served
  respond_and again (c, tryit, s) = elim (respond c tryit) [
    | none ↦ some (died [])
    | some r ↦ again tryit s >>= λ rest. some (replied r rest)
  ]

  -- The lookup of the string in the field, and the switch.
  unfoldable pub look_up :
      (Bytes → Dictrec → S → Option Served) → Bytes → Dictrec → S → Option Served
  unfolding respond_and
  look_up again field tryit s =
      string_in field >>= λ w. lookup s (record tryit { word = w }) >>= respond_and (again field)

  -- The loop of `udp_server`, with what the field `word` holds: `none` is a `recvfrom` that failed. What
  -- a datagram has above 32 bytes is lost.
  unfoldable pub udp_loop : List (Option Bytes) → Bytes → Dictrec → S → Option Served
  unfolding look_up
  udp_loop [] field tryit s = some (waiting [])
  udp_loop (none ∷ requests) field tryit s = udp_loop requests field tryit s
  udp_loop (some bytes ∷ requests) field tryit s =
      look_up (udp_loop requests) (overwrite (take word_size bytes) field) tryit s

  -- The dialogue of `usock_server` and `isock_server` with one client, in the child, by what its reads
  -- answer. A `read` of 0 ends it; one of -1 (`none`) does not, and the word that is there is looked up.
  -- A `read` is for 32 bytes, and more would be written outside the field.
  unfoldable pub dialogue : List (Option Bytes) → Bytes → Dictrec → S → Option Served
  unfolding look_up
  dialogue [] field tryit s = some (waiting [])
  dialogue (none ∷ reads) field tryit s = look_up (dialogue reads) field tryit s
  dialogue (some bytes ∷ reads) field tryit s =
      if length bytes == 0
      then some (waiting [])
      else if ltb word_size (length bytes)
      then none
      else look_up (dialogue reads) (overwrite bytes field) tryit s
