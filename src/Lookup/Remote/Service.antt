-- ===== src/Lookup/Remote/Service.antt =====
-- The stream servers and their clients.
use dcl140_2023_nov.Prelude.{
  All, inr, ℕ, zero, suc, ◌<◌, ◌≡◌, refl, inl, Option, none, some, List, [], ◌∷◌, map, length,
  arith, true, ltb, Bytes,
}
use dcl140_2023_nov.Lookup.Record.{Dictrec, Code}
use dcl140_2023_nov.Lookup.Remote.Server.{string_in, Served, waiting, dialogue}
use dcl140_2023_nov.Lookup.Remote.Main.{
  Calls, Round, child, serves, accept_loop, listening, usock_server, isock_server, path_size,
}
use dcl140_2023_nov.Lookup.Remote.EndToEnd.{
  Dictionary, IsWord, IsServing, sent_word, replies, look_up-reply, dialogue-replies, reply,
}

-- So many copies of a thing.
unfoldable pub repeat {ℓ} : {A : Type ℓ} → ℕ → A → List A
repeat zero x = []
repeat (suc n) x = x ∷ repeat n x

-- Clients each read of whom brings a word, and what each of them is answered.
module _ {S : Type 0} (lookup : Bytes → S → Dictrec → Option (Code × Dictrec × S)) (path : Bytes)
    (s : S) (d : Dictionary (lookup path) s) where
  abbrev pub client : List Bytes → Round
  client words = child (map (sent_word (lookup path) s d) words)

  abbrev pub answered_in_order : List Bytes → Option Served
  answered_in_order words = some (waiting (replies (lookup path) s d words))

  accept_loop-replies :
      (clients : List (List Bytes)) (field : Bytes) (tryit : Dictrec) (t : S)
      → All (All IsWord) clients
      → IsServing (lookup path) s d t
      → accept_loop lookup path (map client clients) field tryit t
        ≡ (map answered_in_order clients, true)
  unfolding accept_loop
  accept_loop-replies [] field tryit t h state = refl
  accept_loop-replies (words ∷ clients) field tryit t h state =
      rw
        (
          accept_loop-replies clients field tryit t h.1 state,
          dialogue-replies (lookup path) s d words field tryit t h.0 state,
        )
        refl

  -- If the calls of their start succeed, no fork fails and each read brings one word that fits the
  -- field with its NUL, both stream servers with a dictionary for their lookup, whose static
  -- variables are as at the start, answer every word of every client, in order, whatever the field
  -- held at first and whatever other clients ask. The name of the local socket must be shorter
  -- than 108 bytes.
  pub servers-replies :
      (c : Calls) (name socket_name : Bytes) (clients : List (List Bytes)) (field : Bytes)
      (tryit : Dictrec)
      → (c.socket ≡ true) × (c.bind ≡ true) × (c.listen ≡ true)
      → length socket_name < path_size
      → All (All IsWord) clients
      → (usock_server lookup c
            (name ∷ path ∷ socket_name ∷ [])
            (map client clients)
            field
            tryit
            d.initial
          ≡ some (serves (map answered_in_order clients) true))
        × (isock_server lookup c (name ∷ path ∷ []) (map client clients) field tryit d.initial
            ≡ some (serves (map answered_in_order clients) true))
  unfolding usock_server isock_server listening
  servers-replies c name socket_name clients field tryit (so, bi, li) h k =
      let short : ltb (length socket_name) path_size ≡ true = ground (arith, h) in
      let e = accept_loop-replies clients field tryit d.initial k (inl refl) in
      (rw (so, short, bi, li, e) refl, rw (so, bi, li, e) refl)

  -- A child on a descriptor whose reads all fail, as where accept gave none, goes on for any number of
  -- reads, and answers each by the word that the field held at first.
  dialogue_spins :
      (n : ℕ) (field w : Bytes) (tryit : Dictrec) (t : S)
      → string_in field ≡ some w
      → IsServing (lookup path) s d t
      → dialogue (lookup path) (repeat n none) field tryit t
        ≡ some (waiting (repeat n (reply (d.meaning w))))
  unfolding dialogue repeat
  dialogue_spins zero field w tryit t f state = refl
  dialogue_spins (suc n) field w tryit t f state =
      look_up-reply (lookup path) s d (dialogue (lookup path) (repeat n none))
        (repeat n (reply (d.meaning w))) field w tryit t f state
        (λ r e. dialogue_spins n field w r s f (inr refl))
