-- ===== src/Lookup/Queue/Defs.antt =====
-- lookup_proj/lookup4.c and msgq_server.c.
use dcl140_2023_nov.Prelude.{
  ℕ, Bool, false, ◌≡◌, Option, none, some, List, [], ◌∷◌, ◌++◌, Bytes, codes, if◌then◌else◌, ◌>>=◌,
}
use dcl140_2023_nov.Lookup.Record.{Dictrec, Code, found, notfound, unavail}
use dcl140_2023_nov.Lookup.Remote.Client.{Reply, read_reply}

-- `sprintf(s, "%d", n)` and `atol(s)`.
pub record Decimal : Type 0 where
  pub print : ℕ → Bytes
  pub atol : Bytes → ℕ
  pub atol-print : (n : ℕ) → atol (print n) ≡ n

-- `ClientMessage`, its strings without what is behind their NUL, and `ServerMessage` with the bytes
-- of its text that were sent.
pub record ClientMessage : Type 0 where
  pub kind : ℕ
  pub word : Bytes
  pub id : Bytes

pub record ServerMessage : Type 0 where
  pub kind : ℕ
  pub text : Bytes

-- What the calls of one `lookup` answer: `getpid`, whether `msgget` finds the queue, whether a message
-- is sent, and the text of the first message of a type, or -1 (`none`).
pub record Calls : Type 0 where
  pub pid : ℕ
  pub queue : Bool
  pub sent : ClientMessage → Bool
  pub received : ℕ → Option Bytes

-- The static variables of `lookup`.
pub record Client : Type 0 where
  pub first_time : Bool
  pub pid : ℕ
  pub snd : ClientMessage

-- The message for a word, to the server.
abbrev pub message : Client → Bytes → ClientMessage
message s word = record s.snd { word = word }

-- What `lookup` does behind its set-up.
unfoldable pub ask : Calls → Client → Dictrec → Reply × Client
ask c s sought = (
  if c.sent (message s sought.word)
      then read_reply sought (c.received s.pid)
      else some (unavail, sought),
  record s { snd = message s sought.word },
)

unfoldable pub set_up : Decimal → Calls → Client → Client
set_up d c s = record s {
  first_time = false;
  pid = c.pid;
  snd = record s.snd { kind = 1; id = d.print c.pid };
}

unfoldable pub lookup4 : Decimal → Calls → Client → Dictrec → Reply × Client
unfolding set_up ask
lookup4 d c s sought =
    if s.first_time
    then (if c.queue then ask c (set_up d c s) sought else (some (unavail, sought), set_up d c s))
    else ask c s sought

-- How the server ends: what it sent, in order, at the end of the messages or by DIE.
pub data Served : Type 0 where
  waiting : List ServerMessage → Served
  died : List ServerMessage → Served

abbrev pub answered_with : ServerMessage → Served → Served
answered_with m (waiting ms) = waiting (m ∷ ms)
answered_with m (died ms) = died (m ∷ ms)

module _ {S : Type 0} (d : Decimal) (lookup : S → Dictrec → Option (Code × Dictrec × S)) where
  -- The switch and `msgsnd`, which is only reported where it fails, and the rest of the loop.
  unfoldable pub respond :
      (Dictrec → S → Option Served) → ClientMessage → Code × Dictrec × S → Option Served
  respond again rcv (found, tryit, s) = again tryit s >>= λ rest.
      some (answered_with (record { kind = d.atol rcv.id; text = tryit.text ++ 0 ∷ [] }) rest)
  respond again rcv (notfound, tryit, s) = again tryit s >>= λ rest.
      some (answered_with (record { kind = d.atol rcv.id; text = codes "XXXX" ++ 0 ∷ [] }) rest)
  respond again rcv (unavail, tryit, s) = some (died [])

  -- The loop: `none` is a `msgrcv` that failed.
  unfoldable pub serve : List (Option ClientMessage) → Dictrec → S → Option Served
  unfolding respond
  serve [] tryit s = some (waiting [])
  serve (none ∷ messages) tryit s = serve messages tryit s
  serve (some rcv ∷ messages) tryit s =
      lookup s (record tryit { word = rcv.word }) >>= respond (serve messages) rcv
