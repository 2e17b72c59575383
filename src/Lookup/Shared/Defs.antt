-- ===== src/Lookup/Shared/Defs.antt =====
-- lookup_proj/lookup6.c and shm_server.c, from where both are set up: the two semaphores, the one record
-- of shared memory, the server, and two clients with a word each. A step is one call, or one
-- statement that uses the memory. The server's `lookup` finds its dictionary. The `semop`s of a client
-- but that of `await` have SEM_UNDO: at its exit the system undoes what they added up to. The server does
-- not exit.
use dcl140_2023_nov.Prelude.{
  ℕ, ◌+◌, ◌-◌, ◌≡◌, ◌≢◌, ◌⊎◌, Bool, true, Option, none, some, [], Bytes, codes, str_eq, ◌==◌,
  if◌then◌else◌, ◌>>=◌,
}

-- Where a client is in `lookup`: before it takes the semaphore, before it writes the word, alerts the
-- server, and waits for it; before it releases the semaphore, compares the text and copies it; and
-- behind a NOTFOUND or FOUND; or its process has exited.
pub data Pc : Type 0 where
  grab write alert await release compare_text copy not_found was_found exited : Pc

-- `sought`
pub record Client : Type 0 where
  pub pc : Pc
  pub word : Bytes
  pub text : Bytes

-- Where the server is in its loop: before the first wait, the lookup, and the second wait.
pub data ServerPc : Type 0 where
  waiting looking telling : ServerPc

pub record Memory : Type 0 where
  pub sem0 : ℕ
  pub sem1 : ℕ
  pub word : Bytes
  pub text : Bytes
  pub server : ServerPc
  pub one : Client
  pub two : Client

abbrev pub fresh : Bytes → Client
fresh w = record { pc = grab; word = w; text = [] }

-- `vals` are the values of the semaphores; the memory holds whatever it held.
abbrev pub initial : (one two word text : Bytes) → Memory
initial one two w t = record {
  sem0 = 1;
  sem1 = 0;
  word = w;
  text = t;
  server = waiting;
  one = fresh one;
  two = fresh two;
}

pub data Who : Type 0 where
  first second : Who

abbrev pub client : Who → Memory → Client
client first s = s.one
client second s = s.two

abbrev pub put : Who → Client → Memory → Memory
put first c s = record s { one = c }
put second c s = record s { two = c }

abbrev pub at_pc : Pc → Client → Client
at_pc p c = record c { pc = p }

-- `semop` with -1: possible only above 0.
abbrev pub down : ℕ → Option ℕ
down n = if n == 0 then none else some (n - 1)

-- One step of a client.
unfoldable pub client_step : Who → Memory → Option Memory
client_step w s =
    let c = client w s in
    elim c.pc [
      | grab ↦ down s.sem0 >>= λ n. some (put w (at_pc write c) (record s { sem0 = n }))
      | write ↦ some (put w (at_pc alert c) (record s { word = c.word }))
      | alert ↦ some (put w (at_pc await c) (record s { sem1 = s.sem1 + 2 }))
      | await ↦ if s.sem1 == 0 then some (put w (at_pc release c) s) else none
      | release ↦ some (put w (at_pc compare_text c) (record s { sem0 = s.sem0 + 1 }))
      | compare_text ↦
          some (put w (at_pc (if str_eq s.text (codes "XXXX") then not_found else copy) c) s)
      | copy ↦ some (put w (record c { pc = was_found; text = s.text }) s)
      | not_found ↦ none
      | was_found ↦ none
      | exited ↦ none
    ]

-- What the server leaves in the text, by what its dictionary says of the word.
abbrev pub answer : Option Bytes → Bytes
answer none = codes "XXXX"
answer (some t) = t

-- One step of the server.
unfoldable pub server_step : (Bytes → Option Bytes) → Memory → Option Memory
server_step meaning s = elim s.server [
  | waiting ↦ down s.sem1 >>= λ n. some (record s { sem1 = n; server = looking })
  | looking ↦ some (record s { text = answer (meaning s.word); server = telling })
  | telling ↦ down s.sem1 >>= λ n. some (record s { sem1 = n; server = waiting })
]

pub data Move : Type 0 where
  by_client : Who → Move
  by_server : Move

unfoldable pub step : (Bytes → Option Bytes) → Move → Memory → Option Memory
unfolding client_step server_step
step meaning (by_client w) s = client_step w s
step meaning by_server s = server_step meaning s

-- A client that has its result exits. Its `grab` and `release` undo each other; its `alert` is undone as
-- far as the semaphore, which is never below 0, allows.
unfoldable pub exit : Who → Memory → Option Memory
exit w s =
    let c = client w s in
    let t = put w (at_pc exited c) (record s { sem1 = s.sem1 - 2 }) in
    elim c.pc [
      | grab ↦ none
      | write ↦ none
      | alert ↦ none
      | await ↦ none
      | release ↦ none
      | compare_text ↦ none
      | copy ↦ none
      | not_found ↦ some t
      | was_found ↦ some t
      | exited ↦ none
    ]

abbrev pub other : Who → Who
other first = second
other second = first

-- The states that the clients and the server come to. Either a client exits at any time behind its
-- result (`anywhere`), or only while the other does not wait for the server.
pub data Reach (meaning : Bytes → Option Bytes) (anywhere : Bool) : Memory → Type 0 where
  start : (one two word text : Bytes) → Reach meaning anywhere (initial one two word text)
  next :
      {s t : Memory} (m : Move)
      → Reach meaning anywhere s
      → step meaning m s ≡ some t
      → Reach meaning anywhere t
  leave :
      {s t : Memory} (w : Who)
      → Reach meaning anywhere s
      → (anywhere ≡ true) ⊎ ((client (other w) s).pc ≢ await)
      → exit w s ≡ some t
      → Reach meaning anywhere t
