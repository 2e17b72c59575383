-- ===== src/Lookup/Fifo/Defs.antt =====
-- lookup_proj/lookup3.c and fifo_server.c.
use dcl140_2023_nov.Prelude.{
  Bool, true, false, Option, some, List, [], ◌∷◌, ◌++◌, Bytes, codes, if◌then◌else◌, ◌>>=◌,
}
use dcl140_2023_nov.Lookup.Record.{Dictrec, Code, found, notfound, unavail}
use dcl140_2023_nov.Lookup.Remote.Client.{Reply, read_reply}

-- The strings in a `Client`, as a request.
pub record Client : Type 0 where
  pub word : Bytes
  pub id : Bytes

-- What the system answers: whether a FIFO opens to write or to read, the template that `mkdtemp`
-- leaves, whether `mkfifo` makes a FIFO, whether the request is written, and what is read from the FIFO
-- of the client.
pub record Calls : Type 0 where
  pub open_write : Bytes → Bool
  pub open_read : Bytes → Bool
  pub mkdtemp : Bytes → Bytes
  pub mkfifo : Bytes → Bool
  pub written : Client → Bool
  pub received : Option Bytes

-- The static variables, with whether `write_fd` is a descriptor. `me` is zero at first.
pub record Linked : Type 0 where
  pub first_time : Bool
  pub write_fd : Bool
  pub me : Client

abbrev pub start : Linked
start = record { first_time = true; write_fd = false; me = record { word = []; id = [] } }

-- Behind the set-up: a write to the descriptor -1 fails.
unfoldable pub ask : Calls → Linked → Dictrec → Reply × Linked
ask c s sought =
    let me : Client = record { word = sought.word; id = s.me.id } in
    (
      if s.write_fd
          then (if c.written me
              then (if c.open_read me.id
                  then read_reply sought c.received
                  else some (unavail, sought))
              else some (unavail, sought))
          else some (unavail, sought),
      record s { me = me },
    )

unfoldable pub make_fifo : Calls → Linked → Dictrec → Reply × Linked
unfolding ask
make_fifo c s sought = if c.mkfifo s.me.id then ask c s sought else (some (unavail, sought), s)

unfoldable pub lookup3 : Calls → Linked → Dictrec → Bytes → Reply × Linked
unfolding make_fifo ask
lookup3 c s sought resource =
    if s.first_time
    then (if c.open_write resource
        then make_fifo c
            (record {
              first_time = false;
              write_fd = true;
              me = record s.me { id = c.mkdtemp s.me.id };
            })
            sought
        else (some (unavail, sought), record s { first_time = false; write_fd = false }))
    else ask c s sought

-- What a read of the server's FIFO brings: its end, with whether the FIFO opens again; an error; or a
-- request.
pub data Event : Type 0 where
  closed : Bool → Event
  failed : Event
  request : Client → Event

-- A reply, and the FIFO that it is written to.
pub record Sent : Type 0 where
  pub fifo : Bytes
  pub text : Bytes

pub data Served : Type 0 where
  waiting : List Sent → Served
  exited : List Sent → Served

abbrev pub sent_first : Sent → Served → Served
sent_first m (waiting ms) = waiting (m ∷ ms)
sent_first m (exited ms) = exited (m ∷ ms)

module _ {S : Type 0} (lookup : S → Dictrec → Option (Code × Dictrec × S)) where
  unfoldable pub respond :
      (Client → Dictrec → S → Option Served) → Client → Code × Dictrec × S → Option Served
  respond again cli (found, tryit, s) = again cli tryit s >>= λ rest.
      some (sent_first (record { fifo = cli.id; text = tryit.text ++ 0 ∷ [] }) rest)
  respond again cli (notfound, tryit, s) = again cli tryit s >>= λ rest.
      some (sent_first (record { fifo = cli.id; text = codes "XXXX" ++ 0 ∷ [] }) rest)
  respond again cli (unavail, tryit, s) = some (exited [])

  -- The loop, on `cli` and `tryit`, which the server never fills: a read that failed leaves the
  -- client of the round before.
  unfoldable pub serve : List Event → Client → Dictrec → S → Option Served
  unfolding respond
  serve [] cli tryit s = some (waiting [])
  serve (closed true ∷ events) cli tryit s = serve events cli tryit s
  serve (closed false ∷ events) cli tryit s = some (exited [])
  serve (failed ∷ events) cli tryit s = lookup s tryit >>= respond (serve events) cli
  serve (request q ∷ events) cli tryit s = lookup s tryit >>= respond (serve events) q
