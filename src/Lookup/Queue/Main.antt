-- ===== src/Lookup/Queue/Main.antt =====
-- lookup_proj/msgq_server.c: the whole server.
use dcl140_2023_nov.Prelude.{
  ℕ, Bool, true, ◌≡◌, refl, Option, some, List, [], ◌∷◌, get_elem?, Bytes, if◌then◌else◌, ◌>>=◌,
}
use dcl140_2023_nov.Lookup.Record.{Dictrec, Code}
use dcl140_2023_nov.Lookup.Start.{Start, exits, serves, usage, perror, die}
use dcl140_2023_nov.Lookup.Queue.Defs.{Decimal, ClientMessage, Served, waiting, serve}
use dcl140_2023_nov.Lookup.Remote.EndToEnd.{Dictionary}
use dcl140_2023_nov.Lookup.Queue.Delivery.{sent_back, serve-sent_back}

-- Whether `stat` finds the dictionary and `msgget` gets the queue of a key, and errno as they leave it.
pub record Calls : Type 0 where
  pub stat : Bytes → Bool
  pub msgget : Bytes → Bool
  pub errno : ℕ

module _ {S : Type 0} (d : Decimal)
    (lookup : Bytes → S → Dictrec → Option (Code × Dictrec × S)) where
  unfoldable pub msgq_server :
      Calls → List Bytes → List (Option ClientMessage) → Dictrec → S → Option (Start Served)
  msgq_server c (name ∷ path ∷ key ∷ []) messages tryit s =
      if c.stat path
      then if c.msgget key
        then (serve d (lookup path) messages tryit s >>= λ r. some (serves r))
        else some (exits (perror name) c.errno)
      else die path
  msgq_server c argv messages tryit s =
      get_elem? argv 0 >>= λ name. some (exits (usage name) c.errno)

  -- If stat and msgget succeed, the server with a dictionary for its lookup sends the sender of each
  -- message, in order, what the dictionary says of its word.
  msgq_server-sent_back :
      (c : Calls) (name path key : Bytes) (s : S) (dict : Dictionary (lookup path) s)
      (messages : List (Option ClientMessage)) (tryit : Dictrec)
      → c.stat path ≡ true
      → c.msgget key ≡ true
      → msgq_server c (name ∷ path ∷ key ∷ []) messages tryit s
        ≡ some (serves (waiting (sent_back d (lookup path) s dict messages)))
  unfolding msgq_server
  msgq_server-sent_back c name path key s dict messages tryit a b =
      rw (a, b, serve-sent_back d (lookup path) s dict messages tryit) refl
