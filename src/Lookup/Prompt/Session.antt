-- ===== src/Lookup/Prompt/Session.antt =====
-- A dictionary text that was converted, asked for words.
use dcl140_2023_nov.Prelude.{
  ℕ, zero, suc, ◌<◌, ◌≡◌, refl, ap, sym, ◌∙◌, inl, inr, Option, none, some, List, [], ◌∷◌, ◌++◌,
  map, length, All, arith, Bytes, c_str, get_line, ◌>>=◌, false,
}
use dcl140_2023_nov.Lookup.Record.{Dictrec, Code, FileSystem, find}
use dcl140_2023_nov.Lookup.Linear.{Linear, start, opened, answered, lookup1, lookup1-find}
use dcl140_2023_nov.Lookup.Remote.EndToEnd.{Dictionary, lookup1-Dictionary}
use dcl140_2023_nov.Lookup.Convert.Defs.{convert}
use dcl140_2023_nov.Lookup.Convert.Entries.{
  IsLine, Entry, IsEntry, shown, record_of, get_line-line, c_str-line, convert-shown,
}
use dcl140_2023_nov.Lookup.Prompt.Defs.{
  word_max, Output, meaning, not_found, Ended, finished, strip, answer, on_line, prompt_loop,
}

-- The input of a user that asks for some words.
unfoldable pub asked : List Bytes → Bytes
asked [] = []
asked (w ∷ ws) = w ++ 0x0a ∷ asked ws

-- A word that fits the field with its newline.
abbrev pub IsAsked : Bytes → Type 0
IsAsked w = IsLine w × (length w < word_max)

abbrev pub told : Bytes → Option Dictrec → Output
told w none = not_found w
told w (some r) = meaning w r.text

strip-line : (w : Bytes) → strip (w ++ 0x0a ∷ []) ≡ some w
unfolding strip
strip-line [] = refl
strip-line (c ∷ []) = refl
strip-line (c ∷ d ∷ w) = rw (strip-line (d ∷ w))

module _ {S : Type 0} (lookup : S → Dictrec → Option (Code × Dictrec × S)) (s : S)
    (d : Dictionary lookup s) where
  answer-told :
      (again : Dictrec → S → Option Ended) (tryit : Dictrec) (o : Option Dictrec) (os : List Output)
      → ((t : Dictrec) → again t s ≡ some (finished os))
      → answer lookup again ((answered tryit o).0, (answered tryit o).1, s)
        ≡ some (finished (told tryit.word o ∷ os))
  unfolding answer
  answer-told again tryit none os h = rw (h tryit)
  answer-told again tryit (some r) os h = rw (h (record tryit { text = r.text }))

  on_line-told :
      (again : Dictrec → S → Option Ended) (tryit : Dictrec) (w line : Bytes) (c : ℕ)
      (os : List Output)
      → IsLine w
      → w ++ 0x0a ∷ [] ≡ c ∷ line
      → ((t : Dictrec) → again t s ≡ some (finished os))
      → on_line lookup again tryit s (c ∷ line) ≡ some (finished (told w (d.meaning w) ∷ os))
  unfolding on_line
  on_line-told again tryit w line c os h q k = rw (ap c_str (sym q) ∙ c_str-line w h ∙ refl) (
      rw (strip-line w) (
        rw (d.answers (record tryit { word = w }))
          (answer-told again (record tryit { word = w }) (d.meaning w) os k)))

  prompt_loop-told :
      (ws : List Bytes) (fuel : ℕ) (tryit : Dictrec)
      → All IsAsked ws
      → length ws < fuel
      → prompt_loop lookup fuel (asked ws) tryit s
        ≡ some (finished (map (λ w. told w (d.meaning w)) ws))
  unfolding prompt_loop asked
  prompt_loop-told ws zero tryit h f = absurd (omega arith)
  prompt_loop-told [] (suc fuel) tryit h f = unfold on_line get_line in refl
  prompt_loop-told ([] ∷ ws) (suc fuel) tryit h f =
      rw (get_line-line word_max [] (asked ws) tt (omega arith)) (
        on_line-told (prompt_loop lookup fuel (asked ws)) tryit [] [] 0x0a _ tt refl
          λ t. prompt_loop-told ws fuel t h.1 (omega arith))
  prompt_loop-told ((c ∷ w) ∷ ws) (suc fuel) tryit h f =
      rw (get_line-line word_max (c ∷ w) (asked ws) h.0.0 h.0.1) (
        on_line-told (prompt_loop lookup fuel (asked ws)) tryit (c ∷ w) (w ++ 0x0a ∷ []) c _ h.0.0
          refl λ t. prompt_loop-told ws fuel t h.1 (omega arith))

-- Two states in which a `lookup` answers alike.
prompt_loop-same :
    {S : Type 0} (lookup : S → Dictrec → Option (Code × Dictrec × S)) (s t : S)
    → ((r : Dictrec) → lookup s r ≡ lookup t r)
    → (fuel : ℕ) (input : Bytes) (tryit : Dictrec)
    → prompt_loop lookup fuel input tryit s ≡ prompt_loop lookup fuel input tryit t
unfolding prompt_loop
prompt_loop-same lookup s t h zero input tryit = refl
prompt_loop-same lookup s t h (suc fuel) input tryit = by_line (get_line word_max input).0
  where
    by_word :
        (w : Option Bytes)
        → (w >>= λ v.
            lookup s (record tryit { word = v })
            >>= answer lookup (prompt_loop lookup fuel (get_line word_max input).1))
          ≡ (w >>= λ v.
              lookup t (record tryit { word = v })
              >>= answer lookup (prompt_loop lookup fuel (get_line word_max input).1))
    by_word none = refl
    by_word (some v) = rw (h (record tryit { word = v }))

    by_line :
        (line : Bytes)
        → on_line lookup (prompt_loop lookup fuel (get_line word_max input).1) tryit s line
          ≡ on_line lookup (prompt_loop lookup fuel (get_line word_max input).1) tryit t line
    by_line [] = unfold on_line in refl
    by_line (c ∷ line) = unfold on_line in by_word (strip (c_str (c ∷ line)))

-- If the dictionary file is what the converter makes of a text whose entries fit, and the user
-- asks line by line for words that fit, the main program linked with lookup1.c prints, for each
-- word in order, the text of the first entry of the word, or that it was not found, and ends.
pub session-entries :
    (fs : FileSystem) (resource : Bytes) (es : List Entry) (ws : List Bytes) (tryit : Dictrec)
    (n fuel : ℕ)
    → All IsEntry es
    → length es < n
    → fs resource ≡ convert n false (shown es)
    → All IsAsked ws
    → length ws < fuel
    → prompt_loop
        (λ (s : Linear) (r : Dictrec). lookup1 fs s r resource)
        fuel
        (asked ws)
        tryit
        start
      ≡ some (finished (map (λ w. told w (find w (map record_of es))) ws))
session-entries fs resource es ws tryit n fuel h k e a f =
    let file = map record_of es in
    let q : fs resource ≡ some file = e ∙ convert-shown es n h k in
    let lookup = λ (s : Linear) (r : Dictrec). lookup1 fs s r resource in
    prompt_loop-same lookup start (opened file)
      (λ r.
        lookup1-find fs resource file r start q (inl refl)
        ∙ sym (lookup1-find fs resource file r (opened file) q (inr refl)))
      fuel (asked ws) tryit
    ∙ prompt_loop-told lookup (opened file) (lookup1-Dictionary fs resource file q) ws fuel tryit a
        f
