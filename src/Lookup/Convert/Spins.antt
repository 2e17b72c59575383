-- ===== src/Lookup/Convert/Spins.antt =====
-- A definition that is too long for its field, at the end of the text.
use dcl140_2023_nov.Prelude.{
  ℕ, zero, suc, ◌+◌, ◌-◌, ◌≤◌, ◌<◌, ◌≡◌, refl, ap, sym, ◌∙◌, Bool, false, Option, none, some, List,
  [], ◌∷◌, ◌++◌, length, take, drop, ltb, Bytes, c_str, get_line, arith,
}
use dcl140_2023_nov.Lookup.Record.{Dictrec}
use dcl140_2023_nov.Lookup.Convert.Defs.{
  line_max, word_max, text_size, spill, over, is_eof, ends_line, read_definition, kept, flush,
  finish, on_word, convert,
}
use dcl140_2023_nov.Lookup.Convert.Entries.{IsLine, get_line-line, spill-newline}

get_line_cut : (n : ℕ) (s : Bytes) → IsLine s → get_line n s ≡ (take n s, drop n s)
unfolding get_line
get_line_cut zero s h = refl
get_line_cut (suc n) [] h = refl
get_line_cut (suc n) (c ∷ s) h = rw h.0.0 (rw (get_line_cut n s h.1))

take-IsLine : (n : ℕ) (s : Bytes) → IsLine s → IsLine (take n s)
take-IsLine zero s h = tt
take-IsLine (suc n) [] h = tt
take-IsLine (suc n) (c ∷ s) h = (h.0, take-IsLine n s h.1)

drop-IsLine : (n : ℕ) (s : Bytes) → IsLine s → IsLine (drop n s)
drop-IsLine zero s h = h
drop-IsLine (suc n) [] h = tt
drop-IsLine (suc n) (c ∷ s) h = drop-IsLine n s h.1

length-take : (n : ℕ) (s : Bytes) → n ≤ length s → length (take n s) ≡ n
length-take zero s h = refl
length-take (suc n) [] h = absurd (omega arith)
length-take (suc n) (c ∷ s) h = ap suc (length-take n s (omega arith))

length-drop : (n : ℕ) (s : Bytes) → length (drop n s) ≡ length s - n
length-drop zero s = omega arith
length-drop (suc n) [] = omega arith
length-drop (suc n) (c ∷ s) = omega (arith, length-drop n s)

whole_piece : (n : ℕ) (s : Bytes) → length s ≤ n → (take n s ≡ s) × (drop n s ≡ [])
whole_piece zero [] h = (refl, refl)
whole_piece zero (c ∷ s) h = absurd (omega arith)
whole_piece (suc n) [] h = (refl, refl)
whole_piece (suc n) (c ∷ s) h = let (t, d) = whole_piece n s (omega arith) in (ap (λ z. c ∷ z) t, d)

c_str_whole : (s : Bytes) → IsLine s → c_str s ≡ s
unfolding c_str
c_str_whole [] h = refl
c_str_whole (c ∷ s) h = rw h.0.1 (ap (λ z. c ∷ z) (c_str_whole s h.1))

ends_line_not : (s : Bytes) → IsLine s → ends_line s ≡ false
unfolding ends_line
ends_line_not [] h = refl
ends_line_not (c ∷ []) h = h.0.0
ends_line_not (c ∷ d ∷ s) h = ends_line_not (d ∷ s) h.1

over-piece : (s : Bytes) → IsLine s → 0 < length s → (over [] 0 s ≡ s) × (is_eof s ≡ false)
unfolding over is_eof
over-piece [] h n = absurd (omega arith)
over-piece (c ∷ s) h n = (c_str_whole (c ∷ s) h, refl)

-- At the end of the input the flush goes on for ever behind a line of two bytes or more.
flush_spins : (fuel : ℕ) (line : Bytes) → 2 ≤ length line → flush fuel (some line) [] ≡ none
unfolding flush get_line kept
flush_spins zero line h = refl
flush_spins (suc fuel) line h =
    let t : ltb (length line) 2 ≡ false = ground arith in rw t (flush_spins fuel line h)

flush-piece :
    (fuel : ℕ) (line s : Bytes)
    → get_line line_max s ≡ (line, [])
    → c_str line ≡ line
    → 2 ≤ length line
    → flush fuel none s ≡ none
unfolding flush kept
flush-piece zero line s e q h = refl
flush-piece (suc fuel) [] s e q h = absurd (omega arith)
flush-piece (suc fuel) (c ∷ line) s e q h =
    let t : ltb (length (c ∷ line)) 2 ≡ false = ground arith in
    rw (e, q) (rw t (flush_spins fuel (c ∷ line) h))

module _ (long : Bytes) (plain : IsLine long) (above : text_size < length long)
    (below : length long < text_size + line_max) where
  flush_long : (fuel : ℕ) → flush fuel none (drop (text_size - 1) long) ≡ none
  flush_long fuel =
      let s = drop (text_size - 1) long in
      let p = drop-IsLine (text_size - 1) long plain in
      let n : length s ≡ length long - (text_size - 1) = length-drop (text_size - 1) long in
      let (t, d) = whole_piece line_max s (omega (arith, n)) in
      flush-piece fuel s s (get_line_cut line_max s p ∙ λ i. (t i, d i)) (c_str_whole s p)
        (omega (arith, n))

  -- What the loop over the definition leaves.
  read_long :
      (fuel : ℕ)
      → read_definition (suc fuel) [] 0 long
        ≡ some (record {
          text = take (text_size - 1) long;
          eof = false;
          short = false;
          rest = drop (text_size - 1) long;
        })
  unfolding read_definition
  read_long fuel =
      let s = take (text_size - 1) long in
      let p = take-IsLine (text_size - 1) long plain in
      let n : length s ≡ text_size - 1 = length-take (text_size - 1) long (omega arith) in
      let (o, e) = over-piece s p (omega (arith, n)) in
      let t : ltb (length s - 0) 2 ≡ false = ground (arith, n) in
      rw (get_line_cut (text_size - 1) long plain) (rw (o, e) (rw (ends_line_not s p, t)))

  spins_behind :
      (again : Bool → Bytes → Option (List Dictrec)) (fuel : ℕ) (w : Bytes)
      → length w ≤ word_max
      → (c : ℕ) (line : Bytes) → w ++ 0x0a ∷ [] ≡ c ∷ line
      → on_word again fuel (c ∷ line) long ≡ none
  unfolding on_word finish
  spins_behind again fuel w k c line q =
      rw (ap spill (sym q) ∙ spill-newline w k)
        (rw (read_long (length long)) (rw (flush_long fuel)))

  on_word_spins :
      (again : Bool → Bytes → Option (List Dictrec)) (fuel : ℕ) (w : Bytes)
      → length w ≤ word_max
      → on_word again fuel (w ++ 0x0a ∷ []) long ≡ none
  on_word_spins again fuel [] k = spins_behind again fuel [] k 0x0a [] refl
  on_word_spins again fuel (c ∷ w) k = spins_behind again fuel (c ∷ w) k c (w ++ 0x0a ∷ []) refl

  -- On a text of a word that fits and one last line with no newline of more than 480 and fewer
  -- than 991 bytes, no number of rounds ends the converter.
  pub convert_spins :
      (w : Bytes) (fuel : ℕ)
      → IsLine w
      → length w ≤ word_max
      → convert fuel false (w ++ 0x0a ∷ long) ≡ none
  unfolding convert
  convert_spins w zero h k = refl
  convert_spins w (suc fuel) h k =
      rw (get_line-line line_max w long h (omega arith)) (on_word_spins (convert fuel) fuel w k)
