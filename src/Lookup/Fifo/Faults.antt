-- ===== src/Lookup/Fifo/Faults.antt =====
-- What the client and the server over named pipes do in fact.
use dcl140_2023_nov.Prelude.{
  ◌≡◌, refl, ap, ◌∙◌, true, false, Option, none, some, List, [], ◌∷◌, map, arith, Bytes,
}
use dcl140_2023_nov.Lookup.Record.{Dictrec, Code, unavail}
use dcl140_2023_nov.Lookup.Linear.{answered}
use dcl140_2023_nov.Lookup.Remote.EndToEnd.{Dictionary, reply}
use dcl140_2023_nov.Lookup.Fifo.Defs.{
  Client, Calls, Linked, start, ask, make_fifo, lookup3, Event, closed, failed, request, Served,
  waiting, exited, sent_first, respond, serve,
}

-- `mkdtemp` leaves a template as it is that does not end in XXXXXX, as the empty one; no FIFO has the
-- empty name.
pub record NoEmptyName (c : Calls) : Type 0 where
  pub template : c.mkdtemp [] ≡ []
  pub no_fifo : c.mkfifo [] ≡ false
  pub no_file : c.open_read [] ≡ false

-- The states that the client comes to.
record Nameless (s : Linked) : Type 0 where
  no_name : s.me.id ≡ []

module _ (c : Calls) (laws : NoEmptyName c) where
  lookup3-Nameless :
      (s : Linked) (sought : Dictrec) (resource : Bytes)
      → Nameless s
      → ((lookup3 c s sought resource).0 ≡ some (unavail, sought))
        × Nameless (lookup3 c s sought resource).1
  unfolding lookup3 make_fifo ask
  lookup3-Nameless s sought resource n =
      ground (arith, laws.template, laws.no_fifo, laws.no_file, n.no_name)

  -- A sequence of calls, by their results.
  pub results : Linked → Bytes → List Dictrec → List (Option (Code × Dictrec))
  results s resource [] = []
  results s resource (r ∷ rs) =
      (lookup3 c s r resource).0 ∷ results (lookup3 c s r resource).1 resource rs

  results_from :
      (rs : List Dictrec) (s : Linked) (resource : Bytes)
      → Nameless s
      → results s resource rs ≡ map (λ r. some (unavail, r)) rs
  unfolding results
  results_from [] s resource n = refl
  results_from (r ∷ rs) s resource n =
      let (e, m) = lookup3-Nameless s r resource n in
      λ i. e i ∷ results_from rs (lookup3 c s r resource).1 resource m i

  -- Where mkdtemp leaves the empty template as it is and no FIFO has the empty name, every call of
  -- a sequence of calls of lookup3.c answers UNAVAIL and leaves the record alone.
  results-unavail :
      (rs : List Dictrec) (resource : Bytes)
      → results start resource rs ≡ map (λ r. some (unavail, r)) rs
  results-unavail rs resource = results_from rs start resource (record { no_name = refl })

-- Every request of a sequence answered by one text, whatever its word is.
unfoldable pub all_told : Bytes → List Event → Client → Served
all_told text [] cli = waiting []
all_told text (closed true ∷ events) cli = all_told text events cli
all_told text (closed false ∷ events) cli = exited []
all_told text (failed ∷ events) cli =
    sent_first (record { fifo = cli.id; text = text }) (all_told text events cli)
all_told text (request q ∷ events) cli =
    sent_first (record { fifo = q.id; text = text }) (all_told text events q)

module _ {S : Type 0} (lookup : S → Dictrec → Option (Code × Dictrec × S)) (s : S)
    (dict : Dictionary lookup s) where
  respond-told :
      (again : Client → Dictrec → S → Option Served) (cli : Client) (tryit : Dictrec)
      (o : Option Dictrec) (rest : Served)
      → ((t : Dictrec) → t.word ≡ tryit.word → again cli t s ≡ some rest)
      → respond lookup again cli ((answered tryit o).0, (answered tryit o).1, s)
        ≡ some (sent_first (record { fifo = cli.id; text = reply o }) rest)
  unfolding respond
  respond-told again cli tryit none rest h = rw (h tryit refl)
  respond-told again cli tryit (some r) rest h = rw (h (record tryit { text = r.text }) refl)

  first : Client → Served → Bytes → Option Served
  first cli rest v =
      some (sent_first (record { fifo = cli.id; text = reply (dict.meaning v) }) rest)

  serve-word :
      (w : Bytes) (events : List Event) (cli : Client) (tryit : Dictrec)
      → tryit.word ≡ w
      → serve lookup events cli tryit s ≡ some (all_told (reply (dict.meaning w)) events cli)
  unfolding serve all_told first
  serve-word w [] cli tryit e = refl
  serve-word w (closed true ∷ events) cli tryit e = serve-word w events cli tryit e
  serve-word w (closed false ∷ events) cli tryit e = refl
  serve-word w (failed ∷ events) cli tryit e =
      rw (dict.answers tryit) (
        respond-told (serve lookup events) cli tryit (dict.meaning tryit.word) _
          λ t q. serve-word w events cli t (q ∙ e))
      ∙ ap (first cli (all_told (reply (dict.meaning w)) events cli)) e
  serve-word w (request q ∷ events) cli tryit e =
      rw (dict.answers tryit) (
        respond-told (serve lookup events) q tryit (dict.meaning tryit.word) _
          λ t p. serve-word w events q t (p ∙ e))
      ∙ ap (first q (all_told (reply (dict.meaning w)) events q)) e

  -- The server over a FIFO with a dictionary for its lookup answers every request by the word that
  -- its own record held at first, whatever word the request has.
  pub serve-all_told :
      (events : List Event) (cli : Client) (tryit : Dictrec)
      → serve lookup events cli tryit s
        ≡ some (all_told (reply (dict.meaning tryit.word)) events cli)
  serve-all_told events cli tryit = serve-word tryit.word events cli tryit refl
