-- ===== src/Lookup/Remote/EndToEnd.antt =====
-- Clients and servers together.
use mathlib.Core.List.{append_assoc}
use dcl140_2023_nov.Prelude.{
  drop, length-append, ltb, ℕ, ◌≡◌, ◌⊎◌, zero, suc, refl, ap, sym, ◌∙◌, Bool-cases, inl, inr, Bool,
  true, false, Option, none, some, List, [], ◌∷◌, ◌++◌, take, length, All, arith, ◌<◌, Bytes, codes,
  str_eq, c_str, ◌==◌, map,
}
use dcl140_2023_nov.Lookup.Record.{File, FileSystem, find, Dictrec, Code, found, notfound}
use dcl140_2023_nov.Lookup.Linear.{Linear, start, answered, opened, lookup1, lookup1-find}
use dcl140_2023_nov.Lookup.Remote.Client.{
  Calls, text_size, terminated, told, read_reply, request, ask, lookup7, lookup8, lookup9,
}
use dcl140_2023_nov.Lookup.Remote.Server.{
  Served, waiting, died, respond, respond_and, udp_loop, dialogue, word_size, look_up, string_in,
  overwrite,
}

-- A C string: no byte of it is NUL.
abbrev pub IsString : Bytes → Type 0
IsString = All (λ c. (c == 0) ≡ false)

-- A word that fits the field with its NUL.
abbrev pub IsWord : Bytes → Type 0
IsWord w = IsString w × (length w < word_size)

string_in-append : (w rest : Bytes) → IsString w → string_in (w ++ 0 ∷ rest) ≡ some w
unfolding string_in
string_in-append [] rest h = refl
string_in-append (c ∷ w) rest h = rw h.0 (rw (string_in-append w rest h.1) refl)

string_in-overwrite :
    (w field : Bytes) → IsString w → string_in (overwrite (w ++ 0 ∷ []) field) ≡ some w
string_in-overwrite w field h =
    let rest = drop (length (w ++ 0 ∷ [])) field in
    ap string_in (append_assoc w (0 ∷ []) rest) ∙ string_in-append w rest h

c_str-append : (w rest : Bytes) → IsString w → c_str (w ++ 0 ∷ rest) ≡ w
unfolding c_str
c_str-append [] rest h = refl
c_str-append (c ∷ w) rest h = rw h.0 (ap (λ z. c ∷ z) (c_str-append w rest h.1))

take-nil : (n : ℕ) → take {A = ℕ} n [] ≡ []
take-nil zero = refl
take-nil (suc n) = refl

take-append : (n : ℕ) (w : Bytes) → length w < n → take n (w ++ 0 ∷ []) ≡ w ++ 0 ∷ []
take-append zero w h = absurd (omega arith)
take-append (suc n) [] h = ap (λ z. 0 ∷ z) (take-nil n)
take-append (suc n) (c ∷ w) h = ap (λ z. c ∷ z) (take-append n w (omega arith))

terminated-append : (w : Bytes) → terminated (w ++ 0 ∷ []) ≡ true
unfolding terminated
terminated-append [] = refl
terminated-append (c ∷ w) =
    rw (terminated-append w) (elim (Bool-cases (c == 0)) [ inl e ↦ rw e | inr e ↦ rw e ])

-- A `lookup` that answers as a dictionary does, at its first call, and at every later one from a state
-- in which it stays.
pub record Dictionary {S : Type 0} (lookup : S → Dictrec → Option (Code × Dictrec × S)) (s : S)
    : Type 0 where
  pub meaning : Bytes → Option Dictrec
  pub answers :
      (sought : Dictrec)
      → lookup s sought
        ≡ some (
          (answered sought (meaning sought.word)).0,
          (answered sought (meaning sought.word)).1,
          s,
        )
  -- its static variables before its first call
  pub initial : S
  pub opens : (sought : Dictrec) → lookup initial sought ≡ lookup s sought

-- The bytes of a reply.
abbrev pub reply : Option Dictrec → Bytes
reply none = codes "XXXX" ++ 0 ∷ []
reply (some r) = r.text ++ 0 ∷ []

module _ {S : Type 0} (lookup : S → Dictrec → Option (Code × Dictrec × S)) (s : S)
    (d : Dictionary lookup s) where
  -- The static variables of a server that has had some requests, or none.
  abbrev pub IsServing : S → Type 0
  IsServing t = (t ≡ d.initial) ⊎ (t ≡ s)

  pub lookup-answered :
      (t : S) (sought : Dictrec)
      → IsServing t
      → lookup t sought
        ≡ some (
          (answered sought (d.meaning sought.word)).0,
          (answered sought (d.meaning sought.word)).1,
          s,
        )
  lookup-answered t sought (inl e) = ap (λ z. lookup z sought) e ∙ d.opens sought ∙ d.answers sought
  lookup-answered t sought (inr e) = ap (λ z. lookup z sought) e ∙ d.answers sought

  pub respond_and-reply :
      (again : Dictrec → S → Option Served) (rest : List Bytes) (sought : Dictrec)
      (o : Option Dictrec)
      → ((t : Dictrec) → t.word ≡ sought.word → again t s ≡ some (waiting rest))
      → respond_and lookup again ((answered sought o).0, (answered sought o).1, s)
        ≡ some (waiting (reply o ∷ rest))
  unfolding respond_and respond
  respond_and-reply again rest sought none h = rw (h sought refl)
  respond_and-reply again rest sought (some r) h = rw (h (record sought { text = r.text }) refl)

  -- A lookup of the word in the field is answered by what the dictionary says of it.
  pub look_up-reply :
      (again : Bytes → Dictrec → S → Option Served) (rest : List Bytes) (field w : Bytes)
      (tryit : Dictrec) (t : S)
      → string_in field ≡ some w
      → IsServing t
      → ((r : Dictrec) → r.word ≡ w → again field r s ≡ some (waiting rest))
      → look_up lookup again field tryit t ≡ some (waiting (reply (d.meaning w) ∷ rest))
  unfolding look_up
  look_up-reply again rest field w tryit t f state h =
      rw (f, lookup-answered t (record tryit { word = w }) state)
        (respond_and-reply (again field) rest (record tryit { word = w }) (d.meaning w) h)

  -- What arrives of a word that was sent.
  abbrev pub sent_word : Bytes → Option Bytes
  sent_word w = some (w ++ 0 ∷ [])

  abbrev pub replies : List Bytes → List Bytes
  replies = map (λ w. reply (d.meaning w))

  -- A UDP server with a dictionary for its lookup answers each word, in order.
  pub udp_loop-replies :
      (words : List Bytes) (field : Bytes) (tryit : Dictrec) (t : S)
      → All IsWord words
      → IsServing t
      → udp_loop lookup (map sent_word words) field tryit t ≡ some (waiting (replies words))
  unfolding udp_loop
  udp_loop-replies [] field tryit t h state = refl
  udp_loop-replies (w ∷ words) field tryit t h state = rw (take-append word_size w h.0.1) (
      look_up-reply (udp_loop lookup (map sent_word words)) (replies words)
        (overwrite (w ++ 0 ∷ []) field) w tryit t (string_in-overwrite w field h.0.0) state
        (λ r e. udp_loop-replies words (overwrite (w ++ 0 ∷ []) field) r s h.1 (inr refl)))

  -- The dialogue of a stream server with a client answers each word, in order, if each read brings one.
  pub dialogue-replies :
      (words : List Bytes) (field : Bytes) (tryit : Dictrec) (t : S)
      → All IsWord words
      → IsServing t
      → dialogue lookup (map sent_word words) field tryit t ≡ some (waiting (replies words))
  unfolding dialogue
  dialogue-replies [] field tryit t h state = refl
  dialogue-replies (w ∷ words) field tryit t h state =
      let l = length-append w (0 ∷ []) in
      let a : (length (w ++ 0 ∷ []) == 0) ≡ false = ground (arith, l) in
      let b : ltb word_size (length (w ++ 0 ∷ [])) ≡ false = ground (arith, l, h.0.1) in
      rw (a, b)
        (look_up-reply (dialogue lookup (map sent_word words)) (replies words)
          (overwrite (w ++ 0 ∷ []) field) w tryit t (string_in-overwrite w field h.0.0) state
          (λ r e. dialogue-replies words (overwrite (w ++ 0 ∷ []) field) r s h.1 (inr refl)))

-- A text that a reply can carry: a C string that fits its field, and is not the mark of NOTFOUND.
pub record IsSendable (r : Dictrec) : Type 0 where
  pub string : IsString r.text
  pub fits : length r.text < text_size
  pub no_mark : str_eq r.text (codes "XXXX") ≡ false

-- What a client is told: its record has the text of the reply, also where that is the mark.
abbrev pub remote : Dictrec → Option Dictrec → Code × Dictrec
remote sought none = (notfound, record sought { text = codes "XXXX" })
remote sought (some r) = (found, record sought { text = r.text })

told-eq :
    (sought : Dictrec) (text : Bytes)
    → IsString text
    → length text < text_size
    → read_reply sought (some (text ++ 0 ∷ [])) ≡ told (record sought { text = text })
unfolding read_reply
told-eq sought text h l =
    rw (take-append text_size text l) (rw (terminated-append text) (rw (c_str-append text [] h)))

told-found :
    (sought : Dictrec) (text : Bytes)
    → str_eq text (codes "XXXX") ≡ false
    → told (record sought { text = text }) ≡ some (found, record sought { text = text })
unfolding told
told-found sought text h = rw h

pub read_reply-reply :
    (sought : Dictrec) (o : Option Dictrec)
    → ((r : Dictrec) → o ≡ some r → IsSendable r)
    → read_reply sought (some (reply o)) ≡ some (remote sought o)
read_reply-reply sought none h =
    told-eq sought (codes "XXXX") (refl, (refl, (refl, (refl, tt)))) (omega arith)
    ∙ unfold told str_eq in refl
read_reply-reply sought (some r) h =
    let ok_text = h r refl in
    told-eq sought r.text ok_text.string ok_text.fits ∙ told-found sought r.text ok_text.no_mark

-- The one reply of a server that got one request.
abbrev pub only : Option Served → Option Bytes
only none = none
only (some (died rs)) = none
only (some (waiting [])) = none
only (some (waiting (r ∷ []))) = some r
only (some (waiting (r ∷ q ∷ rs))) = none

module _ {S : Type 0} (lookup : S → Dictrec → Option (Code × Dictrec × S)) (s : S)
    (d : Dictionary lookup s) where
  ask-reply :
      (c : Calls) (sought : Dictrec)
      → c.sent (request sought) ≡ true
      → c.received (request sought) ≡ only (some (waiting (replies lookup s d (sought.word ∷ []))))
      → IsString sought.word
      → length sought.word < word_size
      → ((r : Dictrec) → d.meaning sought.word ≡ some r → IsSendable r)
      → ask c sought ≡ some (remote sought (d.meaning sought.word))
  unfolding ask
  ask-reply c sought sent received string short texts =
      rw sent (rw received (read_reply-reply sought (d.meaning sought.word) texts))

  -- A client of lookup9.c whose request reaches the UDP server, and which gets the server's reply,
  -- is told what the server's dictionary says of its word, at its first call and at every later
  -- one, and whether or not the server has looked a word up before. The word must be a string of
  -- fewer than 32 bytes, and the dictionary's text of it one that a reply can carry.
  pub lookup9-udp_loop :
      (c : Calls) (first_time : Bool) (sought tryit : Dictrec) (field : Bytes) (t : S)
      → IsServing lookup s d t
      → (c.host ≡ true) × (c.socket ≡ true)
      → c.sent (request sought) ≡ true
      → c.received (request sought)
        ≡ only (udp_loop lookup (some (request sought) ∷ []) field tryit t)
      → IsString sought.word
      → length sought.word < word_size
      → ((r : Dictrec) → d.meaning sought.word ≡ some r → IsSendable r)
      → lookup9 c first_time sought ≡ (some (remote sought (d.meaning sought.word)), false)
  unfolding lookup9
  lookup9-udp_loop c b sought tryit field t state up sent received string short texts =
      let told_so =
        ask-reply c sought sent
          (received
            ∙ ap only (
                udp_loop-replies lookup s d (sought.word ∷ []) field tryit t ((string, short), tt)
                  state))
          string short texts in
      ground (arith, told_so)

  -- A client of lookup7.c or lookup8.c that is connected to a stream server, and whose request and
  -- reply go through, is told what the server's dictionary says of its word, whether or not the
  -- server has looked a word up before, under the conditions on word and text that the client of
  -- lookup9.c has.
  pub lookup7_8-dialogue :
      (c : Calls) (first_time : Bool) (sought tryit : Dictrec) (field : Bytes) (t : S)
      → IsServing lookup s d t
      → (c.host ≡ true) × (c.socket ≡ true) × (c.connect ≡ true)
      → c.sent (request sought) ≡ true
      → c.received (request sought)
        ≡ only (dialogue lookup (some (request sought) ∷ []) field tryit t)
      → IsString sought.word
      → length sought.word < word_size
      → ((r : Dictrec) → d.meaning sought.word ≡ some r → IsSendable r)
      → (lookup7 c first_time sought ≡ (some (remote sought (d.meaning sought.word)), false))
        × (lookup8 c first_time sought ≡ (some (remote sought (d.meaning sought.word)), false))
  unfolding lookup7 lookup8
  lookup7_8-dialogue c b sought tryit field t state up sent received string short texts =
      let told_so =
        ask-reply c sought sent
          (received
            ∙ ap only (
                dialogue-replies lookup s d (sought.word ∷ []) field tryit t ((string, short), tt)
                  state))
          string short texts in
      ground (arith, told_so)

-- A file that `lookup1` has open is a dictionary, whose meaning is the first record of a word.
abbrev pub lookup1-Dictionary :
    (fs : FileSystem) (resource : Bytes) (file : File)
    → fs resource ≡ some file
    → Dictionary (λ (s : Linear) (sought : Dictrec). lookup1 fs s sought resource) (opened file)
lookup1-Dictionary fs resource file h = record {
  meaning = λ w. find w file;
  answers = λ sought. lookup1-find fs resource file sought (opened file) h (inr refl);
  initial = start;
  opens = λ sought.
      lookup1-find fs resource file sought start h (inl refl)
      ∙ sym (lookup1-find fs resource file sought (opened file) h (inr refl));
}
