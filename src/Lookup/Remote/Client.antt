-- ===== src/Lookup/Remote/Client.antt =====
-- lookup_proj/lookup7.c, lookup8.c and lookup9.c: the clients over sockets.
use dcl140_2023_nov.Prelude.{
  ℕ, Bool, false, ◌||◌, Option, none, some, [], ◌∷◌, ◌++◌, take, Bytes, codes, str_eq, c_str, ◌==◌,
  if◌then◌else◌,
}
use dcl140_2023_nov.Lookup.Record.{Dictrec, Code, found, notfound, unavail}

-- What the calls of one `lookup` answer: whether the host has an address, the socket and the
-- connection can be made, and the request goes out; and what comes back for it, or -1 (`none`).
pub record Calls : Type 0 where
  pub host : Bool
  pub socket : Bool
  pub connect : Bool
  pub sent : Bytes → Bool
  pub received : Bytes → Option Bytes

-- `write(fd, word, strlen(word) + 1)`
abbrev pub request : Dictrec → Bytes
request sought = sought.word ++ 0 ∷ []

abbrev pub text_size : ℕ
text_size = 480

unfoldable pub terminated : Bytes → Bool
terminated [] = false
terminated (c ∷ s) = c == 0 || terminated s

-- What `lookup` returns, and its record. A buffer that is read as a string and holds no NUL is a
-- fault.
abbrev pub Reply : Type 0
Reply = Option (Code × Dictrec)

unfoldable pub told : Dictrec → Reply
told sought =
    if str_eq sought.text (codes "XXXX") then some (notfound, sought) else some (found, sought)

unfoldable pub read_reply : Dictrec → Option Bytes → Reply
unfolding told terminated
read_reply sought none = some (unavail, sought)
read_reply sought (some bytes) =
    let buffer = take text_size bytes in
    if terminated buffer then told (record sought { text = c_str buffer }) else none

-- What the three functions do behind their set-up.
unfoldable pub ask : Calls → Dictrec → Reply
unfolding read_reply
ask c sought =
    if c.sent (request sought)
    then read_reply sought (c.received (request sought))
    else some (unavail, sought)

-- Each returns the new value of `first_time` too.
abbrev pub Client : Type 0
Client = Calls → Bool → Dictrec → Reply × Bool

unfoldable pub lookup7 : Client
lookup7 c first_time sought = (
  if first_time
      then (if c.socket
          then (if c.connect then ask c sought else some (unavail, sought))
          else some (unavail, sought))
      else ask c sought,
  false,
)

unfoldable pub lookup8 : Client
lookup8 c first_time sought = (
  if first_time
      then (if c.host
          then (if c.socket
              then (if c.connect then ask c sought else some (unavail, sought))
              else some (unavail, sought))
          else some (unavail, sought))
      else ask c sought,
  false,
)

unfoldable pub lookup9 : Client
lookup9 c first_time sought = (
  if first_time
      then (if c.host
          then (if c.socket then ask c sought else some (unavail, sought))
          else some (unavail, sought))
      else ask c sought,
  false,
)
