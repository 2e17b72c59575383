-- ===== src/Lookup/Prompt/Defs.antt =====
-- lookup_proj/main.c, linked with any `lookup`.
use dcl140_2023_nov.Prelude.{
  ℕ, zero, suc, Option, none, some, List, [], ◌∷◌, Bytes, c_str, get_line, ◌>>=◌,
}
use dcl140_2023_nov.Lookup.Record.{Dictrec, Code, found, notfound, unavail}

-- WORD - 1 bytes of a line at most.
abbrev pub word_max : ℕ
word_max = 31

-- A line of output: `"%s : %s"`, and `"==== %s === : Not Found!\n"`.
pub data Output : Type 0 where
  meaning : (word text : Bytes) → Output
  not_found : (word : Bytes) → Output

-- How the program ends, with what it printed: at the end of the input, or by DIE.
pub data Ended : Type 0 where
  finished : List Output → Ended
  died : List Output → Ended

abbrev pub printed : Output → Ended → Ended
printed o (finished os) = finished (o ∷ os)
printed o (died os) = died (o ∷ os)

-- `tryit.word[strlen(tryit.word) - 1] = 0`: of an empty string it writes in front of the record, a
-- fault.
unfoldable pub strip : Bytes → Option Bytes
strip [] = none
strip (c ∷ []) = some []
strip (c ∷ d ∷ s) = strip (d ∷ s) >>= λ t. some (c ∷ t)

module _ {S : Type 0} (lookup : S → Dictrec → Option (Code × Dictrec × S)) where
  -- The switch, and the rest of the loop.
  unfoldable pub answer : (Dictrec → S → Option Ended) → Code × Dictrec × S → Option Ended
  answer again (found, tryit, s) =
      again tryit s >>= λ e. some (printed (meaning tryit.word tryit.text) e)
  answer again (notfound, tryit, s) = again tryit s >>= λ e. some (printed (not_found tryit.word) e)
  answer again (unavail, tryit, s) = some (died [])

  unfoldable pub on_line : (Dictrec → S → Option Ended) → Dictrec → S → Bytes → Option Ended
  unfolding answer
  on_line again tryit s [] = some (finished [])
  on_line again tryit s (c ∷ line) =
      strip (c_str (c ∷ line)) >>= λ w. lookup s (record tryit { word = w }) >>= answer again

  -- The loop, on the record, the static variables of `lookup` and the input.
  unfoldable pub prompt_loop : ℕ → Bytes → Dictrec → S → Option Ended
  unfolding on_line
  prompt_loop zero input tryit s = none
  prompt_loop (suc fuel) input tryit s =
      on_line (prompt_loop fuel (get_line word_max input).1) tryit s (get_line word_max input).0
