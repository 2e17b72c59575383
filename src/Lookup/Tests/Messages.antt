-- ===== src/Lookup/Tests/Messages.antt =====
-- Messages, named pipes and shared memory in concrete states.
use dcl140_2023_nov.Prelude.{
  arith, ℕ, zero, suc, ◌+◌, ◌≡◌, ◌≢◌, ◌⊎◌, inl, inr, refl, sym, Bool, true, false, Option, none,
  some, List, [], ◌∷◌, ◌++◌, map, length, Bytes, codes, str_eq, if◌then◌else◌,
}
use mathlib.Core.Option.{some-injective}
use dcl140_2023_nov.Lookup.Record.{Dictrec, Code, File, FileSystem, find}
use dcl140_2023_nov.Lookup.Linear.{Linear, lookup1, opened}
use dcl140_2023_nov.Lookup.Remote.EndToEnd.{Dictionary, IsSendable, remote, lookup1-Dictionary}
use dcl140_2023_nov.Lookup.Queue.Defs.{Decimal, ClientMessage, Calls, Client, lookup4, serve}
use dcl140_2023_nov.Lookup.Queue.Delivery.{in_queue, FromOthers, behind, lookup4-serve}
use dcl140_2023_nov.Lookup.Fifo.Defs as Fifo
use dcl140_2023_nov.Lookup.Fifo.Faults.{NoEmptyName, all_told, serve-all_told}
use dcl140_2023_nov.Lookup.Shared.Defs.{
  Memory, initial, first, by_client, by_server, Reach, start, release, was_found, answer,
  client_step, server_step, step,
}
use dcl140_2023_nov.Lookup.Shared.Answers.{inside, Reach-answer}
use dcl140_2023_nov.Lookup.Shared.Progress.{Runs, HasEnded, Reach-goes_on}
use dcl140_2023_nov.Lookup.Shared.Race.{run, Reach-run, Reach-overtaken}

abbrev file : File
file =
    record { word = codes "cat"; text = codes "an animal" }
    ∷ record { word = codes "tea"; text = codes "a drink" }
    ∷ []

abbrev fs : FileSystem
fs name = some file

abbrev sought : Dictrec
sought = record { word = codes "tea"; text = [] }

abbrev server : Linear → Dictrec → Option (Code × Dictrec × Linear)
server s r = lookup1 fs s r (codes "dict")

abbrev dictionary : Dictionary server (opened file)
dictionary = lookup1-Dictionary fs (codes "dict") file refl

-- A number written as so many strokes.
unfoldable strokes : ℕ → Bytes
strokes zero = []
strokes (suc n) = 0x31 ∷ strokes n

length-strokes : (n : ℕ) → length (strokes n) ≡ n
unfolding strokes
length-strokes zero = refl
length-strokes (suc n) = omega (arith, length-strokes n)

abbrev by_strokes : Decimal
by_strokes = record { print = strokes; atol = length; atol-print = length-strokes }

-- Another client, with the process id 5, that asks before this one, with the id 7, does.
abbrev other_request : ClientMessage
other_request = record { kind = 1; word = codes "cat"; id = strokes 5 }

abbrev own_request : ClientMessage
own_request = record { kind = 1; word = codes "tea"; id = strokes 7 }

abbrev requests : List (Option ClientMessage)
requests = some other_request ∷ none ∷ some own_request ∷ some own_request ∷ []

abbrev calls : Calls
calls = record {
  pid = 7;
  queue = true;
  sent = λ m. true;
  received = λ kind. in_queue kind (serve by_strokes server requests sought (opened file));
}

abbrev at_first : Client
at_first = record { first_time = true; pid = 0; snd = record { kind = 0; word = []; id = [] } }

others : FromOthers by_strokes server (opened file) dictionary 7 (some other_request ∷ none ∷ [])
others = (omega (arith, length-strokes 5), tt)

texts : (r : Dictrec) → find sought.word file ≡ some r → IsSendable r
unfolding find dcl140_2023_nov.Prelude.str_eq
texts r h = rw (sym (some-injective _ _ h)) (record {
  string = (refl, (refl, (refl, (refl, (refl, (refl, (refl, tt)))))));
  fits = omega arith;
  no_mark = refl;
})

lookup4-serve_example : lookup4 by_strokes calls at_first sought ≡ (
  some (remote sought (find sought.word file)),
  behind by_strokes server (opened file) dictionary calls sought.word,
)
lookup4-serve_example =
    lookup4-serve by_strokes server (opened file) dictionary calls sought sought
      (some other_request ∷ none ∷ []) (some own_request ∷ []) at_first refl refl others refl texts
      (inl refl)

-- A system in which `mkdtemp` and `mkfifo` are given the empty name.
abbrev named : Bytes → Bool
named [] = false
named (c ∷ s) = true

abbrev pipes : Fifo.Calls
pipes = record {
  open_write = λ f. true;
  open_read = named;
  mkdtemp = λ t. t;
  mkfifo = named;
  written = λ m. true;
  received = some (codes "a drink" ++ 0 ∷ []);
}

pipes_lem : NoEmptyName pipes
pipes_lem = record { template = refl; no_fifo = refl; no_file = refl }

abbrev events : List Fifo.Event
events =
    Fifo.request (record { word = codes "cat"; id = codes "fifo.1" })
    ∷ Fifo.closed true
    ∷ Fifo.request (record { word = codes "tea"; id = codes "fifo.2" })
    ∷ []

serve-all_told_example :
    Fifo.serve server events
      (record { word = []; id = [] })
      (record { word = []; text = [] })
      (opened file)
    ≡ some (all_told (codes "XXXX" ++ 0 ∷ []) events (record { word = []; id = [] }))
unfolding find dcl140_2023_nov.Prelude.str_eq
serve-all_told_example =
    serve-all_told server (opened file) dictionary events (record { word = []; id = [] })
      (record { word = []; text = [] })

-- One word is known.
abbrev meaning : Bytes → Option Bytes
meaning w = if str_eq w (codes "tea") then some (codes "a drink") else none

abbrev tea_first : Memory
tea_first = initial (codes "tea") (codes "cat") [] []

-- The first client is behind its wait for the server.
abbrev served : Memory
served = record tea_first {
  sem0 = 0;
  word = codes "tea";
  text = codes "a drink";
  one = record { pc = release; word = codes "tea"; text = [] };
}

served-Reach : Reach meaning false served
unfolding run step client_step server_step str_eq
served-Reach =
    Reach-run meaning
      (by_client first
        ∷ by_client first
        ∷ by_client first
        ∷ by_server
        ∷ by_server
        ∷ by_server
        ∷ by_client first
        ∷ [])
      (start (codes "tea") (codes "cat") [] []) refl

Reach-answer_example :
    (served.text ≡ answer (meaning (codes "tea")))
    × (inside served.one.pc + inside served.two.pc ≡ 1)
Reach-answer_example = Reach-answer meaning first served-Reach refl

Reach-goes_on_example :
    Runs meaning served ⊎ (HasEnded meaning served.one × HasEnded meaning served.two)
Reach-goes_on_example = Reach-goes_on meaning served-Reach

Reach-overtaken_example :
    (s : Memory) × Reach meaning false s
    × (s.one.word ≡ codes "cat")
    × (s.one.pc ≡ was_found)
    × (s.one.text ≡ codes "a drink")
unfolding str_eq
Reach-overtaken_example =
    Reach-overtaken meaning (codes "cat") (codes "tea") (codes "a drink") refl refl
