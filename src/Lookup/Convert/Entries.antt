-- ===== src/Lookup/Convert/Entries.antt =====
-- A dictionary text, entry by entry, is converted to its records.
use mathlib.Core.List.{append_assoc, append-nil}
use dcl140_2023_nov.Prelude.{
  ℕ, zero, suc, ◌+◌, ◌-◌, ◌≤◌, ◌<◌, ◌≡◌, ◌≢◌, refl, ap, sym, ◌∙◌, Bool, true, false, Option, some,
  List, [], ◌∷◌, ◌++◌, map, length, length-append, take, drop, ltb, ◌==◌, ◌>>=◌, Bytes, c_str,
  get_line, All, arith,
}
use dcl140_2023_nov.Lookup.Record.{Dictrec}
use dcl140_2023_nov.Lookup.Convert.Defs.{
  line_max, word_max, text_size, chomp, word_of, spill, over, is_eof, ends_line, Definition,
  read_definition, finish, on_word, convert,
}

-- The bytes of a line: neither a newline nor NUL.
abbrev pub IsLine : Bytes → Type 0
IsLine = All (λ c. ((c == 0x0a) ≡ false) × ((c == 0) ≡ false))

pub record Entry : Type 0 where
  pub word : Bytes
  pub lines : List Bytes

unfoldable pub joined : List Bytes → Bytes
joined [] = []
joined (l ∷ ls) = l ++ joined ls

-- The word, the lines of the definition, and a blank line.
unfoldable pub shown_lines : List Bytes → Bytes → Bytes
shown_lines [] rest = 0x0a ∷ rest
shown_lines (l ∷ ls) rest = l ++ 0x0a ∷ shown_lines ls rest

unfoldable pub shown : List Entry → Bytes
unfolding shown_lines
shown [] = []
shown (e ∷ es) = e.word ++ 0x0a ∷ shown_lines e.lines (shown es)

-- An entry that fits a record: its word fits the field, no line of its definition is empty, and the
-- definition with a newline behind it fits the other field.
pub record IsEntry (e : Entry) : Type 0 where
  pub word_line : IsLine e.word
  pub word_fits : length e.word ≤ word_max
  pub text_lines : All IsLine e.lines
  pub no_blank : All (λ l. l ≢ []) e.lines
  pub text_fits : length (joined e.lines) + 1 < text_size

-- The lines of the definition run together, with a newline at their end.
unfoldable pub record_of : Entry → Dictrec
unfolding joined
record_of e = record { word = e.word; text = joined e.lines ++ 0x0a ∷ [] }

-- `fgets` on a line that there is room for.
pub get_line-line :
    (n : ℕ) (l rest : Bytes)
    → IsLine l
    → length l < n
    → get_line n (l ++ 0x0a ∷ rest) ≡ (l ++ 0x0a ∷ [], rest)
unfolding get_line
get_line-line zero l rest h k = absurd (omega arith)
get_line-line (suc n) [] rest h k = refl
get_line-line (suc n) (c ∷ l) rest h k =
    rw h.0.0 (rw (get_line-line n l rest h.1 (omega arith)) refl)

pub c_str-line : (l : Bytes) → IsLine l → c_str (l ++ 0x0a ∷ []) ≡ l ++ 0x0a ∷ []
unfolding c_str
c_str-line [] h = refl
c_str-line (c ∷ l) h = rw h.0.1 (ap (λ z. c ∷ z) (c_str-line l h.1))

ends_line-line : (l : Bytes) → ends_line (l ++ 0x0a ∷ []) ≡ true
unfolding ends_line
ends_line-line [] = refl
ends_line-line (c ∷ []) = refl
ends_line-line (c ∷ d ∷ l) = ends_line-line (d ∷ l)

-- The word of a line that fits the field, with what it spills.
word_of-line :
    (n : ℕ) (w : Bytes) → IsLine w → length w ≤ n → chomp (c_str (take n (w ++ 0x0a ∷ []))) ≡ w
unfolding chomp c_str
word_of-line zero [] h k = refl
word_of-line zero (c ∷ w) h k = absurd (omega arith)
word_of-line (suc n) [] h k = ground arith
word_of-line (suc n) (c ∷ w) h k =
    rw h.0.1 (rw h.0.0 (ap (λ z. c ∷ z) (word_of-line n w h.1 (omega arith))))

drop-line : (n : ℕ) (w : Bytes) → length w ≤ n → drop (suc n) (w ++ 0x0a ∷ []) ≡ []
drop-line zero [] k = refl
drop-line zero (c ∷ w) k = absurd (omega arith)
drop-line (suc n) [] k = refl
drop-line (suc n) (c ∷ w) k = drop-line n w (omega arith)

take-front : (t u : Bytes) → take (length t) (t ++ u) ≡ t
take-front [] u = refl
take-front (c ∷ t) u = ap (λ z. c ∷ z) (take-front t u)

-- What a definition leaves that ends in a blank line.
abbrev whole : Bytes → Bytes → Definition
whole text rest = record { text = text; eof = false; short = true; rest = rest }

-- One round of the loop over the definition, by what it reads and adds.
module _ (fuel : ℕ) (text : Bytes) (off : ℕ) (input : Bytes) (c : ℕ) (line rest text' : Bytes)
    (reads : get_line (text_size - off - 1) input ≡ (c ∷ line, rest))
    (adds : take off text ++ c_str (c ∷ line) ≡ text') where
  round_ends :
      length text' < off + 2 → read_definition (suc fuel) text off input ≡ some (whole text' rest)
  unfolding read_definition over is_eof
  round_ends h = let t : ltb (length text' - off) 2 ≡ true = ground arith in rw (reads, adds, t)

  round_goes :
      (off' : ℕ)
      → length text' ≡ off' + 1
      → off < off'
      → ends_line text' ≡ true
      → read_definition (suc fuel) text off input ≡ read_definition fuel text' off' rest
  unfolding read_definition over is_eof
  round_goes off' e h k =
      let t : ltb (length text' - off) 2 ≡ false = ground arith in
      let o : length text' - 1 ≡ off' = omega (arith, e) in rw (reads, adds, t, k, o)

length-newline : (t : Bytes) → length (t ++ 0x0a ∷ []) ≡ length t + 1
length-newline t = length-append t (0x0a ∷ [])

read_lines :
    (ls : List Bytes) (before text rest : Bytes) (fuel : ℕ)
    → take (length before) text ≡ before
    → All IsLine ls
    → All (λ l. l ≢ []) ls
    → length before + length (joined ls) + 1 < text_size
    → length ls < fuel
    → read_definition fuel text (length before) (shown_lines ls rest)
      ≡ some (whole ((before ++ joined ls) ++ 0x0a ∷ []) rest)
unfolding joined shown_lines
read_lines ls before text rest zero h k n r f = absurd (omega arith)
read_lines [] before text rest (suc fuel) h k n r f =
    round_ends fuel text (length before) (0x0a ∷ rest) 0x0a [] rest _
      (get_line-line _ [] rest tt (omega arith))
      (rw (h, append-nil) (ap (λ z. before ++ z) (c_str-line [] tt)))
      (omega (arith, length-newline (before ++ []), length-append before []))
read_lines ([] ∷ ls) before text rest (suc fuel) h k n r f = absurd (n.0 refl)
read_lines ((c ∷ l) ∷ ls) before text rest (suc fuel) h k n r f =
    let now = before ++ c ∷ l in
    let e = length-append before (c ∷ l) in
    round_goes fuel text (length before) (c ∷ l ++ 0x0a ∷ shown_lines ls rest) c (l ++ 0x0a ∷ [])
      (shown_lines ls rest) (now ++ 0x0a ∷ [])
      (get_line-line _ (c ∷ l) (shown_lines ls rest) k.0
        (omega (arith, length-append (c ∷ l) (joined ls))))
      (rw h (
        ap (λ z. before ++ z) (c_str-line (c ∷ l) k.0)
        ∙ sym (append_assoc before (c ∷ l) (0x0a ∷ []))))
      (length now) (length-newline now) (omega (arith, e)) (ends_line-line now)
    ∙ read_lines ls now (now ++ 0x0a ∷ []) rest fuel (take-front now (0x0a ∷ [])) k.1 n.1
        (omega (arith, e, length-append (c ∷ l) (joined ls))) (omega arith)
    ∙ ap (λ z. some (whole (z ++ 0x0a ∷ []) rest)) (append_assoc before (c ∷ l) (joined ls))

lines-le-shown : (ls : List Bytes) (rest : Bytes) → length ls < length (shown_lines ls rest)
unfolding shown_lines
lines-le-shown [] rest = omega arith
lines-le-shown (l ∷ ls) rest =
    omega (arith, lines-le-shown ls rest, length-append l (0x0a ∷ shown_lines ls rest))

pub word_of-newline : (w : Bytes) → IsLine w → length w ≤ word_max → word_of (w ++ 0x0a ∷ []) ≡ w
unfolding word_of
word_of-newline w h k = word_of-line word_max w h k

pub spill-newline : (w : Bytes) → length w ≤ word_max → spill (w ++ 0x0a ∷ []) ≡ []
unfolding spill c_str
spill-newline w k = rw (drop-line word_max w k)

-- The main loop on a word and its definition.
module _ (again : Bool → Bytes → Option (List Dictrec)) (fuel : ℕ) (w : Bytes) (ls : List Bytes)
    (more : Bytes) (h : IsEntry (record { word = w; lines = ls })) where
  definition-lines :
      read_definition (suc (length (shown_lines ls more))) [] 0 (shown_lines ls more)
      ≡ some (whole (joined ls ++ 0x0a ∷ []) more)
  definition-lines =
      read_lines ls [] [] more _ refl h.text_lines h.no_blank (omega (arith, h.text_fits))
        (omega (arith, lines-le-shown ls more))

  on_word-line :
      (c : ℕ) (line : Bytes)
      → w ++ 0x0a ∷ [] ≡ c ∷ line
      → on_word again fuel (c ∷ line) (shown_lines ls more) ≡ (
          again false more >>= λ file.
          some (record { word = w; text = joined ls ++ 0x0a ∷ [] } ∷ file))
  unfolding on_word finish
  on_word-line c line q =
      rw (ap spill (sym q) ∙ spill-newline w h.word_fits)
        (rw definition-lines (rw (ap word_of (sym q) ∙ word_of-newline w h.word_line h.word_fits)))

on_word-entry :
    (again : Bool → Bytes → Option (List Dictrec)) (fuel : ℕ) (w : Bytes) (ls : List Bytes)
    (more : Bytes)
    → IsEntry (record { word = w; lines = ls })
    → on_word again fuel (w ++ 0x0a ∷ []) (shown_lines ls more) ≡ (
        again false more >>= λ file.
        some (record { word = w; text = joined ls ++ 0x0a ∷ [] } ∷ file))
on_word-entry again fuel [] ls more h = on_word-line again fuel [] ls more h 0x0a [] refl
on_word-entry again fuel (c ∷ w) ls more h =
    on_word-line again fuel (c ∷ w) ls more h c (w ++ 0x0a ∷ []) refl

-- A text of entries that fit is converted to one record for each, in order: the word, and the
-- lines of the definition run together with a newline at their end. More rounds than entries are
-- enough.
pub convert-shown :
    (es : List Entry) (fuel : ℕ)
    → All IsEntry es
    → length es < fuel
    → convert fuel false (shown es) ≡ some (map record_of es)
unfolding convert shown record_of
convert-shown es zero h f = absurd (omega arith)
convert-shown [] (suc fuel) h f = unfold on_word get_line in refl
convert-shown (e ∷ es) (suc fuel) h f =
    rw
      (get_line-line line_max e.word (shown_lines e.lines (shown es)) h.0.word_line
        (omega (arith, h.0.word_fits)))
      (rw (on_word-entry (convert fuel) fuel e.word e.lines (shown es) h.0)
        (rw (convert-shown es fuel h.1 (omega arith))))
