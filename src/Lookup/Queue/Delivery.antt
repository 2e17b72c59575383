-- ===== src/Lookup/Queue/Delivery.antt =====
-- Which reply a client gets among those of other clients.
use dcl140_2023_nov.Prelude.{
  ℕ, ◌≡◌, ◌≢◌, refl, ap, ◌∙◌, inl, inr, ◌⊎◌, true, false, Option, none, some, List, [], ◌∷◌, ◌++◌,
  arith, Bytes, ◌==◌, if◌then◌else◌,
}
use dcl140_2023_nov.Lookup.Record.{Dictrec, Code}
use dcl140_2023_nov.Lookup.Linear.{answered}
use dcl140_2023_nov.Lookup.Remote.Client.{read_reply}
use dcl140_2023_nov.Lookup.Remote.EndToEnd.{Dictionary, reply, remote, IsSendable, read_reply-reply}
use dcl140_2023_nov.Lookup.Queue.Defs.{
  Decimal, ClientMessage, ServerMessage, Calls, Client, ask, set_up, lookup4, Served, waiting, died,
  respond, serve,
}

-- `msgrcv` of a type: the first message of it.
unfoldable pub first_of : ℕ → List ServerMessage → Option Bytes
first_of kind [] = none
first_of kind (m ∷ ms) = if m.kind == kind then some m.text else first_of kind ms

abbrev pub in_queue : ℕ → Option Served → Option Bytes
in_queue kind none = none
in_queue kind (some (waiting ms)) = first_of kind ms
in_queue kind (some (died ms)) = first_of kind ms

module _ {S : Type 0} (d : Decimal) (lookup : S → Dictrec → Option (Code × Dictrec × S)) (s : S)
    (dict : Dictionary lookup s) where
  -- A message for the sender of each request, with what the dictionary says of its word.
  pub sent_back : List (Option ClientMessage) → List ServerMessage
  sent_back [] = []
  sent_back (none ∷ messages) = sent_back messages
  sent_back (some rcv ∷ messages) =
      record { kind = d.atol rcv.id; text = reply (dict.meaning rcv.word) } ∷ sent_back messages

  respond-reply :
      (again : Dictrec → S → Option Served) (rest : List ServerMessage) (rcv : ClientMessage)
      (sought : Dictrec) (o : Option Dictrec)
      → ((t : Dictrec) → again t s ≡ some (waiting rest))
      → respond d lookup again rcv ((answered sought o).0, (answered sought o).1, s)
        ≡ some (waiting (record { kind = d.atol rcv.id; text = reply o } ∷ rest))
  unfolding respond
  respond-reply again rest rcv sought none h = rw (h sought)
  respond-reply again rest rcv sought (some r) h = rw (h (record sought { text = r.text }))

  pub serve-sent_back :
      (messages : List (Option ClientMessage)) (tryit : Dictrec)
      → serve d lookup messages tryit s ≡ some (waiting (sent_back messages))
  unfolding serve sent_back
  serve-sent_back [] tryit = refl
  serve-sent_back (none ∷ messages) tryit = serve-sent_back messages tryit
  serve-sent_back (some rcv ∷ messages) tryit =
      rw (dict.answers (record tryit { word = rcv.word })) (
        respond-reply (serve d lookup messages) (sent_back messages) rcv _ _
          (serve-sent_back messages))

  -- The requests of other clients.
  abbrev pub FromOthers : ℕ → List (Option ClientMessage) → Type 0
  FromOthers pid [] = Unit
  FromOthers pid (none ∷ messages) = FromOthers pid messages
  FromOthers pid (some rcv ∷ messages) = (d.atol rcv.id ≢ pid) × FromOthers pid messages

  first_of-sent_back :
      (pid : ℕ) (before after : List (Option ClientMessage)) (rcv : ClientMessage)
      → FromOthers pid before
      → d.atol rcv.id ≡ pid
      → first_of pid (sent_back (before ++ some rcv ∷ after)) ≡ some (reply (dict.meaning rcv.word))
  unfolding first_of sent_back
  first_of-sent_back pid [] after rcv o e = ground (arith, e)
  first_of-sent_back pid (none ∷ before) after rcv o e = first_of-sent_back pid before after rcv o e
  first_of-sent_back pid (some m ∷ before) after rcv o e =
      let b : (d.atol m.id == pid) ≡ false = ground (arith, o.0) in
      rw b (first_of-sent_back pid before after rcv o.1 e)

  -- What a client sends for a word, and its static variables behind a call for a word.
  abbrev pub sent_for : Calls → Bytes → ClientMessage
  sent_for c word = record { kind = 1; word = word; id = d.print c.pid }

  abbrev pub behind : Calls → Bytes → Client
  behind c word = record { first_time = false; pid = c.pid; snd = sent_for c word }

  -- A client of lookup4.c whose message is sent, and which gets the first reply of its type that
  -- the server sends, is told what the server's dictionary says of its word, whatever other
  -- clients asked before it, at its first call and at every later one. Requests of other clients
  -- must hold another process id, and the dictionary's text must be one that a reply can carry.
  pub lookup4-serve :
      (c : Calls) (sought tryit : Dictrec) (before after : List (Option ClientMessage)) (t : Client)
      → c.queue ≡ true
      → c.sent (sent_for c sought.word) ≡ true
      → FromOthers c.pid before
      → c.received c.pid
        ≡ in_queue c.pid (serve d lookup (before ++ some (sent_for c sought.word) ∷ after) tryit s)
      → ((r : Dictrec) → dict.meaning sought.word ≡ some r → IsSendable r)
      → (t.first_time ≡ true) ⊎ ((w : Bytes) × (t ≡ behind c w))
      → lookup4 d c t sought
        ≡ (some (remote sought (dict.meaning sought.word)), behind c sought.word)
  unfolding lookup4 ask set_up
  lookup4-serve c sought tryit before after t up sent others received texts state =
      let e : c.received c.pid ≡ some (reply (dict.meaning sought.word)) =
        received
        ∙ ap (in_queue c.pid)
            (serve-sent_back (before ++ some (sent_for c sought.word) ∷ after) tryit)
        ∙ first_of-sent_back c.pid before after (sent_for c sought.word) others
            (d.atol-print c.pid) in
      let told : read_reply sought (c.received c.pid)
          ≡ some (remote sought (dict.meaning sought.word)) =
        ap (read_reply sought) e ∙ read_reply-reply sought (dict.meaning sought.word) texts in
      elim state [ inl h ↦ rw (h, up) (rw (sent, told)) | inr (w, h) ↦ rw h (rw (sent, told)) ]
