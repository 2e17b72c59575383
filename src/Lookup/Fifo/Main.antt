-- ===== src/Lookup/Fifo/Main.antt =====
-- lookup_proj/fifo_server.c: the whole server.
use dcl140_2023_nov.Prelude.{
  ℕ, Bool, true, ◌≡◌, refl, Option, some, List, [], ◌∷◌, get_elem?, Bytes, if◌then◌else◌, ◌>>=◌,
}
use dcl140_2023_nov.Lookup.Record.{Dictrec, Code}
use dcl140_2023_nov.Lookup.Start.{Start, exits, serves, usage, perror, no_pipe}
use dcl140_2023_nov.Lookup.Fifo.Defs.{Client, Event, Served, serve}
use dcl140_2023_nov.Lookup.Remote.EndToEnd.{Dictionary, reply}
use dcl140_2023_nov.Lookup.Fifo.Faults.{all_told, serve-all_told}

-- Whether `stat` finds a file, and it is a FIFO; whether it opens; and errno as they leave it.
pub record Calls : Type 0 where
  pub stat : Bytes → Bool
  pub is_fifo : Bytes → Bool
  pub open_read : Bytes → Bool
  pub errno : ℕ

module _ {S : Type 0} (lookup : Bytes → S → Dictrec → Option (Code × Dictrec × S)) where
  unfoldable pub fifo_server :
      Calls → List Bytes → List Event → Client → Dictrec → S → Option (Start Served)
  fifo_server c (name ∷ path ∷ fifo ∷ []) events cli tryit s =
      if c.stat path
      then if c.stat fifo
        then if c.is_fifo fifo
          then if c.open_read fifo
            then (serve (lookup path) events cli tryit s >>= λ r. some (serves r))
            else some (exits (perror name) c.errno)
          else some (exits (no_pipe fifo) 1)
        else some (exits (perror name) c.errno)
      else some (exits (perror name) c.errno)
  fifo_server c argv events cli tryit s =
      get_elem? argv 0 >>= λ name. some (exits (usage name) c.errno)

  -- If the dictionary is there and the FIFO opens, the server with a dictionary for its lookup answers
  -- every request by the word that its own record held at first.
  fifo_server-all_told :
      (c : Calls) (name path fifo : Bytes) (s : S) (dict : Dictionary (lookup path) s)
      (events : List Event) (cli : Client) (tryit : Dictrec)
      → (c.stat path ≡ true)
        × (c.stat fifo ≡ true)
        × (c.is_fifo fifo ≡ true)
        × (c.open_read fifo ≡ true)
      → fifo_server c (name ∷ path ∷ fifo ∷ []) events cli tryit s
        ≡ some (serves (all_told (reply (dict.meaning tryit.word)) events cli))
  unfolding fifo_server
  fifo_server-all_told c name path fifo s dict events cli tryit (a, b, f, o) =
      rw (a, b, f, o, serve-all_told (lookup path) s dict events cli tryit) refl
