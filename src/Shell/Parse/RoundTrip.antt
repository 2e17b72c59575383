-- ===== src/Shell/Parse/RoundTrip.antt =====
-- The words of a line that was put together from words.
use dcl140_2023_nov.Prelude.{
  ℕ, ◌≡◌, ◌≢◌, refl, ap, ◌∙◌, false, some, List, [], ◌∷◌, ◌++◌, Bytes, All,
}
use dcl140_2023_nov.Shell.Argv.{Slot, vector}
use dcl140_2023_nov.Shell.Parse.Defs.{delim, parse, free_argv}
use dcl140_2023_nov.Shell.Parse.Words.{into_first, words, expected, parse-words}

abbrev pub IsWord : Bytes → Type 0
IsWord w = (w ≢ []) × All (λ c. delim c ≡ false) w

-- A line of words: a blank behind each, and the newline that `fgets` leaves.
unfoldable pub line_of : List Bytes → Bytes
line_of [] = 0x0a ∷ []
line_of (w ∷ ws) = w ++ 0x20 ∷ line_of ws

words-into_first :
    (c d : ℕ) (s : Bytes)
    → delim c ≡ false
    → delim d ≡ false
    → words (c ∷ d ∷ s) ≡ into_first c (words (d ∷ s))
unfolding words
words-into_first c d s h k = rw (h, k)

words-append :
    (c : ℕ) (w s : Bytes)
    → delim c ≡ false
    → All (λ d. delim d ≡ false) w
    → words ((c ∷ w) ++ 0x20 ∷ s) ≡ (c ∷ w) ∷ words s
unfolding words
words-append c [] s h a = rw h (unfold delim in refl)
words-append c (d ∷ w) s h a =
    words-into_first c d (w ++ 0x20 ∷ s) h a.0 ∙ ap (into_first c) (words-append d w s a.0 a.1)

words-line_of : (ws : List Bytes) → All IsWord ws → words (line_of ws) ≡ ws
unfolding line_of
words-line_of [] h = unfold words delim in refl
words-line_of ([] ∷ ws) h = absurd (h.0.0 refl)
words-line_of ((c ∷ w) ∷ ws) h =
    words-append c w (line_of ws) h.0.1.0 h.0.1.1 ∙ ap (λ z. (c ∷ w) ∷ z) (words-line_of ws h.1)

-- A line put together from words that are not empty and hold no delimiter is parsed back to them.
pub parse-line_of :
    (ws : List Bytes) → All IsWord ws → parse (some (line_of ws)) ≡ some (expected ws)
parse-line_of ws h = parse-words (line_of ws) ∙ ap (λ z. some (expected z)) (words-line_of ws h)

-- What `free_argv` frees: the tokens in front of NULL, each once and in order.
pub free_argv-vector : (ts : List Bytes) (rest : List Slot) → free_argv (vector ts rest) ≡ some ts
unfolding free_argv
free_argv-vector [] rest = refl
free_argv-vector (t ∷ ts) rest = rw (free_argv-vector ts rest)
