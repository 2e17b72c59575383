-- ===== src/Lookup/Tests.antt =====
-- The dictionary on a concrete file.
mod Library
mod Texts
mod Messages
use mathlib.Core.Option.{some-injective}
use dcl140_2023_nov.Prelude.{
  ℕ, zero, suc, ◌+◌, ◌<◌, ◌≡◌, ◌≢◌, refl, ap, sym, ◌∙◌, ◌⊎◌, inl, inr, Bool, true, false, Option,
  none, some, List, [], ◌∷◌, ◌++◌, All, map, Bytes, codes, arith, length, ◌>>=◌, if◌then◌else◌,
  str_eq_iff,
}
use dcl140_2023_nov.Lookup.Record.{
  Dictrec, Code, found, notfound, unavail, File, FileSystem, find, In,
}
use dcl140_2023_nov.Lookup.Linear.{Linear, answered, opened, lookup1, lookup1-find}
use dcl140_2023_nov.Lookup.Mapped.{mapped, lookup5, lookup5-find, Distinct}
use dcl140_2023_nov.Lookup.Index.{indexed, lookup2, Outcome, lookup2-find}
use dcl140_2023_nov.Lookup.Search.{IsSorted, str_le}
use dcl140_2023_nov.Lookup.Linear
use dcl140_2023_nov.Lookup.Mapped
use dcl140_2023_nov.Lookup.Index
use dcl140_2023_nov.Lookup.Remote.Client.{Calls, request, lookup7, lookup8, lookup9}
use dcl140_2023_nov.Lookup.Remote.Server.{waiting, udp_loop, dialogue}
use dcl140_2023_nov.Lookup.Remote.EndToEnd.{
  Dictionary, remote, only, IsSendable, lookup9-udp_loop, lookup7_8-dialogue, lookup1-Dictionary,
}
use dcl140_2023_nov.Lookup.Remote.Main
use dcl140_2023_nov.Lookup.Remote.Main.{serves, child, accept_loop, usock_server, isock_server}
use dcl140_2023_nov.Lookup.Remote.Service.{repeat, client, answered_in_order, servers-replies}
use dcl140_2023_nov.Lookup.Tests.Library.{library}

abbrev cat_record : Dictrec
cat_record = record { word = codes "cat"; text = codes "an animal" }

abbrev file : File
file = cat_record ∷ record { word = codes "tea"; text = codes "a drink" } ∷ []

abbrev fs : FileSystem
fs name = some file

abbrev sought : Dictrec
sought = record { word = codes "tea"; text = [] }

abbrev name : Bytes
name = codes "dict"

abbrev of_word : Dictrec → Bytes
of_word r = r.word

abbrev off_word : Index.Index → Bytes
off_word e = e.word

no_match : false ≢ true
no_match e = cc

words_differ : codes "cat" ≢ codes "tea"
unfolding dcl140_2023_nov.Prelude.str_eq
words_differ e = no_match ((str_eq_iff (codes "cat") (codes "tea")).1 e)

file-Distinct : Distinct file
file-Distinct r s (inl a) (inl b) e = a ∙ sym b
file-Distinct r s (inl a) (inr (inl b)) e =
    absurd (words_differ (sym (ap of_word a) ∙ e ∙ ap of_word b))
file-Distinct r s (inl a) (inr (inr b)) e = absurd b
file-Distinct r s (inr (inl a)) (inl b) e =
    absurd (words_differ (sym (ap of_word b) ∙ sym e ∙ ap of_word a))
file-Distinct r s (inr (inl a)) (inr (inl b)) e = a ∙ sym b
file-Distinct r s (inr (inl a)) (inr (inr b)) e = absurd b
file-Distinct r s (inr (inr a)) i e = absurd a

file-IsSorted : IsSorted of_word file
unfolding str_le
file-IsSorted = ((refl, tt), (tt, tt))

lookup5-find_example :
    lookup5 (library of_word) fs Mapped.start sought name
    ≡ (found, record { word = codes "tea"; text = codes "a drink" }, mapped file)
unfolding find dcl140_2023_nov.Prelude.str_eq
lookup5-find_example =
    lookup5-find (library of_word) file file-IsSorted file-Distinct fs name sought Mapped.start refl
      (inl refl)

lookup2-find_example :
    lookup2 (library off_word) fs Index.start sought name
    ≡ some (
      found,
      record { word = codes "tea"; text = codes "a drink" },
      indexed (library off_word) file,
    )
unfolding find dcl140_2023_nov.Prelude.str_eq
lookup2-find_example =
    lookup2-find (library off_word) file sought fs name Index.start file-Distinct refl (inl refl)

abbrev server : Linear → Dictrec → Option (Code × Dictrec × Linear)
server s r = lookup1 fs s r name

abbrev dictionary : Dictionary server (opened file)
dictionary = lookup1-Dictionary fs name file refl

-- What the field of a server held at first.
abbrev field : Bytes
field = repeat 32 7

-- The calls of a client whose requests reach the server and are answered by it.
abbrev over_udp : Calls
over_udp = record {
  host = true;
  socket = true;
  connect = true;
  sent = λ r. true;
  received = λ r. only (udp_loop server (some r ∷ []) field sought Linear.start);
}

abbrev over_stream : Calls
over_stream = record {
  host = true;
  socket = true;
  connect = true;
  sent = λ r. true;
  received = λ r. only (dialogue server (some r ∷ []) field sought Linear.start);
}

texts : (r : Dictrec) → find sought.word file ≡ some r → IsSendable r
unfolding find dcl140_2023_nov.Prelude.str_eq
texts r h = rw (sym (some-injective _ _ h)) (record {
  string = (refl, (refl, (refl, (refl, (refl, (refl, (refl, tt)))))));
  fits = omega arith;
  no_mark = refl;
})

lookup9-udp_loop_example :
    lookup9 over_udp true sought ≡ (some (remote sought (find sought.word file)), false)
lookup9-udp_loop_example =
    lookup9-udp_loop server (opened file) dictionary over_udp true sought sought field Linear.start
      (inl refl) (refl, refl) refl refl (refl, (refl, (refl, tt))) (omega arith) texts

lookup7_8-dialogue_example :
    (lookup7 over_stream false sought ≡ (some (remote sought (find sought.word file)), false))
    × (lookup8 over_stream false sought ≡ (some (remote sought (find sought.word file)), false))
lookup7_8-dialogue_example =
    lookup7_8-dialogue server (opened file) dictionary over_stream false sought sought field
      Linear.start (inl refl) (refl, refl, refl) refl refl (refl, (refl, (refl, tt))) (omega arith)
      texts

abbrev servers : Bytes → Linear → Dictrec → Option (Code × Dictrec × Linear)
servers path s r = lookup1 fs s r path

abbrev up : Main.Calls
up = record { socket = true; bind = true; listen = true; errno = 0 }

-- Two clients of a word each, and one that asks nothing.
abbrev clients : List (List Bytes)
clients = (codes "cat" ∷ []) ∷ (codes "tea" ∷ []) ∷ [] ∷ []

servers-replies_example :
    (usock_server servers up
        (codes "server" ∷ name ∷ codes "s" ∷ [])
        (map (client servers name (opened file) dictionary) clients)
        field
        sought
        Linear.start
      ≡ some (serves (map (answered_in_order servers name (opened file) dictionary) clients) true))
    × (isock_server servers up
          (codes "server" ∷ name ∷ [])
          (map (client servers name (opened file) dictionary) clients)
          field
          sought
          Linear.start
        ≡ some
            (serves (map (answered_in_order servers name (opened file) dictionary) clients) true))
servers-replies_example =
    servers-replies servers name (opened file) dictionary up (codes "server") (codes "s") clients
      field sought (refl, refl, refl) (omega arith)
      (
        (((refl, (refl, (refl, tt))), omega arith), tt),
        ((((refl, (refl, (refl, tt))), omega arith), tt), (tt, tt)),
      )

-- A read of 0 ends the dialogue; one without a NUL leaves the rest of the field; a -1 does not end it.
three_reads :
    dialogue server
      (some (codes "tea" ++ 0 ∷ []) ∷ some (codes "c") ∷ none ∷ some [] ∷ none ∷ [])
      field
      sought
      Linear.start
    ≡ some (
        waiting
          ((codes "a drink" ++ 0 ∷ []) ∷ (codes "XXXX" ++ 0 ∷ []) ∷ (codes "XXXX" ++ 0 ∷ []) ∷ []))
unfolding dialogue lookup1 dcl140_2023_nov.Lookup.Remote.Server.string_in
    dcl140_2023_nov.Lookup.Remote.Server.respond Linear.search_file dcl140_2023_nov.Prelude.str_eq
three_reads = refl
