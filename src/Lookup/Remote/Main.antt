-- ===== src/Lookup/Remote/Main.antt =====
-- lookup_proj/usock_server.c, isock_server.c and udp_server.c: the start of each server, and the loop of
-- the first two, which answers each client in a child. What the system's calls answer is a parameter.
use dcl140_2023_nov.Prelude.{
  ℕ, Option, none, some, List, [], ◌∷◌, length, get_elem?, Bool, true, false, ltb, if◌then◌else◌,
  ◌>>=◌, Bytes, codes,
}
use dcl140_2023_nov.Lookup.Record.{Dictrec, Code}
use dcl140_2023_nov.Lookup.Start.{Message, usage, perror}
use dcl140_2023_nov.Lookup.Remote.Server.{Served, udp_loop, dialogue}

-- Whether the calls of the start succeed, and errno as they leave it.
pub record Calls : Type 0 where
  pub socket : Bool
  pub bind : Bool
  pub listen : Bool
  pub errno : ℕ

-- A server has exited with a status, or serves: the stream servers in their children, and until a
-- fork fails.
pub data Main : Type 0 where
  exits : Message → ℕ → Main
  serves : List (Option Served) → Bool → Main
  answers : Served → Main

abbrev pub die : Bytes → Option Main
die message = some (exits (perror message) 1)

-- A round of the main loop: fork fails, or the child has a client, whose reads answer this. The
-- answer of `accept` is not tested: on -1 each read of the child fails.
pub data Round : Type 0 where
  no_child : Round
  child : List (Option Bytes) → Round

-- `sizeof(server.sun_path)` of Linux.
abbrev pub path_size : ℕ
path_size = 108

-- The `lookup` that they are linked with is a parameter, with the file's name before its state.
module _ {S : Type 0} (lookup : Bytes → S → Dictrec → Option (Code × Dictrec × S)) where
  -- The main loop of the stream servers. A child works on a copy of the field, the record and of the static
  -- variables of `lookup`, and its end, also by a fault, is not the server's.
  unfoldable pub accept_loop :
      Bytes → List Round → Bytes → Dictrec → S → List (Option Served) × Bool
  accept_loop path [] field tryit s = ([], true)
  accept_loop path (no_child ∷ rounds) field tryit s = ([], false)
  accept_loop path (child reads ∷ rounds) field tryit s =
      let rest = accept_loop path rounds field tryit s in
      (dialogue (lookup path) reads field tryit s ∷ rest.0, rest.1)

  -- A failing `listen` and the loop, behind the other calls of the start.
  unfoldable pub listening : Calls → Bytes → Bytes → List Round → Bytes → Dictrec → S → Option Main
  unfolding accept_loop
  listening c failure path rounds field tryit s =
      if c.bind
      then if c.listen
        then some (
            serves (accept_loop path rounds field tryit s).0
              (accept_loop path rounds field tryit s).1)
        else die (codes "Failed to listen on socket")
      else die failure

  -- `argv[2]` is copied to the address without a test of its length.
  unfoldable pub usock_server : Calls → List Bytes → List Round → Bytes → Dictrec → S → Option Main
  unfolding listening
  usock_server c (name ∷ path ∷ socket_name ∷ []) rounds field tryit s =
      if c.socket
      then if ltb (length socket_name) path_size
        then listening c (codes "Failed to make socket") path rounds field tryit s
        else none
      else die (codes "Failed to create socket.")
  usock_server c argv rounds field tryit s =
      get_elem? argv 0 >>= λ name. some (exits (usage name) c.errno)

  unfoldable pub isock_server : Calls → List Bytes → List Round → Bytes → Dictrec → S → Option Main
  unfolding listening
  isock_server c (name ∷ path ∷ []) rounds field tryit s =
      if c.socket
      then listening c (codes "failed to make sock") path rounds field tryit s
      else die (codes "Failed to create socket.")
  isock_server c argv rounds field tryit s =
      get_elem? argv 0 >>= λ name. some (exits (usage name) 1)

  unfoldable pub udp_server :
      Calls → List Bytes → List (Option Bytes) → Bytes → Dictrec → S → Option Main
  udp_server c (name ∷ path ∷ []) requests field tryit s =
      if c.socket
      then if c.bind
        then (udp_loop (lookup path) requests field tryit s >>= λ served. some (answers served))
        else die (codes "failed to make sock")
      else die (codes "Failed to create socket")
  udp_server c argv requests field tryit s =
      get_elem? argv 0 >>= λ name. some (exits (usage name) c.errno)
