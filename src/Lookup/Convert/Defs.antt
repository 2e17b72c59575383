-- ===== src/Lookup/Convert/Defs.antt =====
-- lookup_proj/convert.c. A record is seen as the C strings in its two fields; `dr` is blank before
-- each word. The files are open, and a write succeeds.
use dcl140_2023_nov.Prelude.{
  ℕ, zero, suc, ◌-◌, Bool, true, false, Option, none, some, List, [], ◌∷◌, ◌++◌, length, take, drop,
  ltb, ◌==◌, ◌||◌, not, if◌then◌else◌, ◌>>=◌, Bytes, c_str, get_line,
}
use dcl140_2023_nov.Lookup.Record.{Dictrec}

-- BIGLINE - 1 bytes of a line at most, and the sizes of the two fields.
abbrev pub line_max : ℕ
line_max = 511

abbrev pub word_max : ℕ
word_max = 31

abbrev pub text_size : ℕ
text_size = 480

-- `strchr(dr.word, '\n')`, and the NUL put there.
unfoldable pub chomp : Bytes → Bytes
chomp [] = []
chomp (c ∷ s) = if c == 0x0a then [] else c ∷ chomp s

-- The word of a line, and what the line spills over from the word into the text.
unfoldable pub word_of : Bytes → Bytes
unfolding chomp
word_of line = chomp (c_str (take word_max line))

unfoldable pub spill : Bytes → Bytes
spill line = c_str (drop (suc word_max) line)

-- `fgets(dr.text + off, sizeof(dr.text) - off, in)`: at the end of the input the text stays.
unfoldable pub over : Bytes → ℕ → Bytes → Bytes
over text off [] = text
over text off (c ∷ line) = take off text ++ c_str (c ∷ line)

unfoldable pub is_eof : Bytes → Bool
is_eof [] = true
is_eof (c ∷ line) = false

unfoldable pub ends_line : Bytes → Bool
ends_line [] = false
ends_line (c ∷ []) = c == 0x0a
ends_line (c ∷ d ∷ s) = ends_line (d ∷ s)

-- What the loop over the definition leaves: the text, `eof`, whether the last piece that was read
-- had fewer than two bytes, and the rest of the input.
pub record Definition : Type 0 where
  pub text : Bytes
  pub eof : Bool
  pub short : Bool
  pub rest : Bytes

-- The loop over the definition. With `off` at the last byte of the text and 480 - off bytes of room it
-- never fills the field, so `sizeof(dr.text) - off` is above 0.
unfoldable pub read_definition : ℕ → Bytes → ℕ → Bytes → Option Definition
unfolding over is_eof ends_line
read_definition zero text off input = none
read_definition (suc fuel) text off input =
    let line = (get_line (text_size - off - 1) input).0 in
    let rest = (get_line (text_size - off - 1) input).1 in
    let text' = over text off line in
    let newoff = length text' in
    let again = read_definition fuel text' (newoff - 1) rest in
    if is_eof line || (ltb (newoff - off) 2 || not (ends_line text'))
    then some
        (record { text = text'; eof = is_eof line; short = ltb (newoff - off) 2; rest = rest })
    else again

-- `do { eof = fgets(line, BIGLINE, in) == NULL; } while (strlen(line) >= 2)`: at the end of the
-- input `line` is what it was, and the first time it was never written.
unfoldable pub kept : Option Bytes → Bytes → Option Bytes
kept line [] = line
kept line (c ∷ s) = some (c_str (c ∷ s))

unfoldable pub flush : ℕ → Option Bytes → Bytes → Option (Bool × Bytes)
unfolding kept is_eof
flush zero line input = none
flush (suc fuel) line input =
    let piece = (get_line line_max input).0 in
    let rest = (get_line line_max input).1 in
    kept line piece >>= λ l.
    let again = flush fuel (some l) rest in
    if ltb (length l) 2 then some (is_eof piece, rest) else again

-- The flush is left out behind a blank line and at the end of the input.
unfoldable pub finish : ℕ → Definition → Option (Bool × Bytes)
unfolding flush
finish fuel d = if d.eof || d.short then some (d.eof, d.rest) else flush fuel none d.rest

-- The body of the main loop on the line that `fgets` read, if any.
unfoldable pub on_word :
    (Bool → Bytes → Option (List Dictrec)) → ℕ → Bytes → Bytes → Option (List Dictrec)
unfolding read_definition finish word_of spill
on_word again fuel [] rest = some []
on_word again fuel (c ∷ line) rest =
    read_definition (suc (length rest)) (spill (c ∷ line)) 0 rest >>= λ d.
    finish fuel d >>= λ (eof, more).
    again eof more >>= λ file. some (record { word = word_of (c ∷ line); text = d.text } ∷ file)

-- The main loop, on `eof` and the input; `none` is a fault, or a loop without end.
unfoldable pub convert : ℕ → Bool → Bytes → Option (List Dictrec)
unfolding on_word
convert zero eof input = none
convert (suc fuel) true input = some []
convert (suc fuel) false input =
    on_word (convert fuel) fuel (get_line line_max input).0 (get_line line_max input).1
