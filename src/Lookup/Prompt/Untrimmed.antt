-- ===== src/Lookup/Prompt/Untrimmed.antt =====
-- lookup_proj/fifo_client.c, linked with any `lookup`: main.c without the line that cuts
-- the newline off, and with another form of the line for NOTFOUND.
use std.Path.{subst}
use dcl140_2023_nov.Prelude.{
  ℕ, zero, suc, ◌<◌, ◌≡◌, refl, ap, sym, ◌∙◌, Option, none, some, List, [], ◌∷◌, ◌++◌, map, length,
  All, arith, Bytes, c_str, get_line, ◌>>=◌, Bool-cases, str_eq, str_eq_iff, inl, inr,
}
use dcl140_2023_nov.Lookup.Record.{Dictrec, Code, find}
use dcl140_2023_nov.Lookup.Remote.EndToEnd.{Dictionary}
use dcl140_2023_nov.Lookup.Convert.Entries.{
  IsLine, Entry, IsEntry, record_of, get_line-line, c_str-line,
}
use dcl140_2023_nov.Lookup.Prompt.Defs.{word_max, Output, not_found, Ended, finished, answer}
use dcl140_2023_nov.Lookup.Prompt.Session.{asked, IsAsked}

module _ {S : Type 0} (lookup : S → Dictrec → Option (Code × Dictrec × S)) where
  unfoldable pub on_raw_line : (Dictrec → S → Option Ended) → Dictrec → S → Bytes → Option Ended
  on_raw_line again tryit s [] = some (finished [])
  on_raw_line again tryit s (c ∷ line) =
      lookup s (record tryit { word = c_str (c ∷ line) }) >>= answer lookup again

  unfoldable pub raw_prompt_loop : ℕ → Bytes → Dictrec → S → Option Ended
  unfolding on_raw_line
  raw_prompt_loop zero input tryit s = none
  raw_prompt_loop (suc fuel) input tryit s =
      on_raw_line (raw_prompt_loop fuel (get_line word_max input).1) tryit s
        (get_line word_max input).0

  module _ (s : S) (d : Dictionary lookup s)
      (plain : (w : Bytes) → d.meaning (w ++ 0x0a ∷ []) ≡ none) where
    on_raw_line-not_found :
        (again : Dictrec → S → Option Ended) (tryit : Dictrec) (w line : Bytes) (c : ℕ)
        (os : List Output)
        → c_str (w ++ 0x0a ∷ []) ≡ w ++ 0x0a ∷ []
        → w ++ 0x0a ∷ [] ≡ c ∷ line
        → ((t : Dictrec) → again t s ≡ some (finished os))
        → on_raw_line again tryit s (c ∷ line) ≡ some (finished (not_found (w ++ 0x0a ∷ []) ∷ os))
    unfolding on_raw_line answer
    on_raw_line-not_found again tryit w line c os h q k =
        let r : Dictrec = record tryit { word = w ++ 0x0a ∷ [] } in
        rw (ap c_str (sym q) ∙ h) (rw (d.answers r) (rw (plain w) (rw (k r) refl)))

    pub raw_prompt_loop-not_found :
        (ws : List Bytes) (fuel : ℕ) (tryit : Dictrec)
        → All IsAsked ws
        → length ws < fuel
        → raw_prompt_loop fuel (asked ws) tryit s
          ≡ some (finished (map (λ w. not_found (w ++ 0x0a ∷ [])) ws))
    unfolding raw_prompt_loop asked
    raw_prompt_loop-not_found ws zero tryit h f = absurd (omega arith)
    raw_prompt_loop-not_found [] (suc fuel) tryit h f = unfold on_raw_line get_line in refl
    raw_prompt_loop-not_found ([] ∷ ws) (suc fuel) tryit h f =
        rw (get_line-line word_max [] (asked ws) tt (omega arith)) (
          on_raw_line-not_found (raw_prompt_loop fuel (asked ws)) tryit [] [] 0x0a _
            (c_str-line [] tt) refl λ t. raw_prompt_loop-not_found ws fuel t h.1 (omega arith))
    raw_prompt_loop-not_found ((c ∷ w) ∷ ws) (suc fuel) tryit h f =
        rw (get_line-line word_max (c ∷ w) (asked ws) h.0.0 h.0.1) (
          on_raw_line-not_found (raw_prompt_loop fuel (asked ws)) tryit (c ∷ w) (w ++ 0x0a ∷ []) c _
            (c_str-line (c ∷ w) h.0.0) refl
            λ t. raw_prompt_loop-not_found ws fuel t h.1 (omega arith))

no_newline : (w : Bytes) → IsLine (w ++ 0x0a ∷ []) → ⊥
no_newline [] h = let e = h.0.0 in cc
no_newline (c ∷ w) h = no_newline w h.1

-- No word of a converted text ends in a newline.
find_raw :
    (es : List Entry) (w : Bytes) → All IsEntry es → find (w ++ 0x0a ∷ []) (map record_of es) ≡ none
unfolding find record_of
find_raw [] w h = refl
find_raw (e ∷ es) w h = elim (Bool-cases (str_eq (w ++ 0x0a ∷ []) e.word)) [
  | inl q ↦
      absurd
        (no_newline w (subst IsLine (sym ((str_eq_iff (w ++ 0x0a ∷ []) e.word).0 q)) h.0.word_line))
  | inr q ↦ rw q (find_raw es w h.1)
]

-- The program of fifo_client.c, linked with a lookup that answers from the records of a converted
-- text whose entries fit, tells its user of every word that fits, whatever the text has, that it
-- was not found with a newline behind it.
pub raw_prompt_loop-find :
    {S : Type 0} (lookup : S → Dictrec → Option (Code × Dictrec × S)) (s : S)
    (d : Dictionary lookup s) (es : List Entry) (ws : List Bytes) (fuel : ℕ) (tryit : Dictrec)
    → All IsEntry es
    → ((w : Bytes) → d.meaning w ≡ find w (map record_of es))
    → All IsAsked ws
    → length ws < fuel
    → raw_prompt_loop lookup fuel (asked ws) tryit s
      ≡ some (finished (map (λ w. not_found (w ++ 0x0a ∷ [])) ws))
raw_prompt_loop-find lookup s d es ws fuel tryit h m a f =
    raw_prompt_loop-not_found lookup s d (λ w. m (w ++ 0x0a ∷ []) ∙ find_raw es w h) ws fuel tryit a
      f
