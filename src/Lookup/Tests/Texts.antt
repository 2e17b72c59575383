-- ===== src/Lookup/Tests/Texts.antt =====
-- A dictionary text and the words that a user asks for.
use dcl140_2023_nov.Prelude.{
  false, arith, ℕ, zero, suc, ◌≡◌, ◌≢◌, refl, Option, none, some, List, [], ◌∷◌, ◌++◌, map, length,
  All, Bytes, codes,
}
use dcl140_2023_nov.Lookup.Record.{Dictrec, Code, FileSystem, find}
use dcl140_2023_nov.Lookup.Linear.{Linear, opened, lookup1, start}
use dcl140_2023_nov.Lookup.Convert.Defs.{convert}
use dcl140_2023_nov.Lookup.Convert.Entries.{
  IsLine, Entry, IsEntry, shown, joined, record_of, convert-shown,
}
use dcl140_2023_nov.Lookup.Convert.Spins.{convert_spins}
use dcl140_2023_nov.Lookup.Prompt.Defs.{not_found, finished, prompt_loop}
use dcl140_2023_nov.Lookup.Remote.EndToEnd.{Dictionary, lookup1-Dictionary}
use dcl140_2023_nov.Lookup.Prompt.Untrimmed.{raw_prompt_loop, raw_prompt_loop-find}
use dcl140_2023_nov.Lookup.Prompt.Session.{asked, IsAsked, told, session-entries}

abbrev cat_entry : Entry
cat_entry = record { word = codes "cat"; lines = codes "an " ∷ codes "animal" ∷ [] }

abbrev entries : List Entry
entries = cat_entry ∷ record { word = codes "tea"; lines = codes "a drink" ∷ [] } ∷ []

not_blank : {c : ℕ} {s : Bytes} → c ∷ s ≢ []
not_blank e = cc

plain : (false ≡ false) × (false ≡ false)
plain = (refl, refl)

cat-IsLine : IsLine (codes "cat")
cat-IsLine = (plain, (plain, (plain, tt)))

tea-IsLine : IsLine (codes "tea")
tea-IsLine = (plain, (plain, (plain, tt)))

entries-IsEntry : All IsEntry entries
unfolding joined
entries-IsEntry = (
  record {
    word_line = cat-IsLine;
    word_fits = omega arith;
    text_lines = (
      (plain, (plain, (plain, tt))),
      ((plain, (plain, (plain, (plain, (plain, (plain, tt)))))), tt),
    );
    no_blank = (not_blank, (not_blank, tt));
    text_fits = omega arith;
  },
  (
    record {
      word_line = tea-IsLine;
      word_fits = omega arith;
      text_lines = ((plain, (plain, (plain, (plain, (plain, (plain, (plain, tt))))))), tt);
      no_blank = (not_blank, tt);
      text_fits = omega arith;
    },
    tt,
  ),
)

convert-shown_example : convert 3 false (shown entries) ≡ some (map record_of entries)
convert-shown_example = convert-shown entries 3 entries-IsEntry (omega arith)

-- A line of a letter many times.
letters : ℕ → Bytes
letters zero = []
letters (suc n) = 97 ∷ letters n

length-letters : (n : ℕ) → length (letters n) ≡ n
unfolding letters
length-letters zero = refl
length-letters (suc n) = omega (arith, length-letters n)

letters-IsLine : (n : ℕ) → IsLine (letters n)
unfolding letters
letters-IsLine zero = tt
letters-IsLine (suc n) = ((refl, refl), letters-IsLine n)

convert_spins_example : convert 7 false (codes "cat" ++ 0x0a ∷ letters 600) ≡ none
convert_spins_example =
    convert_spins (letters 600) (letters-IsLine 600) (omega (arith, length-letters 600))
      (omega (arith, length-letters 600)) (codes "cat") 7 cat-IsLine (omega arith)

abbrev fs : FileSystem
fs name = convert 3 false (shown entries)

abbrev words : List Bytes
words = codes "tea" ∷ codes "cat" ∷ codes "tea" ∷ []

words-IsAsked : All IsAsked words
words-IsAsked =
    ((tea-IsLine, omega arith), ((cat-IsLine, omega arith), ((tea-IsLine, omega arith), tt)))

session-entries_example :
    prompt_loop
      (λ (s : Linear) (r : Dictrec). lookup1 fs s r (codes "dict"))
      4
      (asked words)
      (record { word = []; text = [] })
      start
    ≡ some (finished (map (λ w. told w (find w (map record_of entries))) words))
session-entries_example =
    session-entries fs (codes "dict") entries words (record { word = []; text = [] }) 3 4
      entries-IsEntry (omega arith) refl words-IsAsked (omega arith)

abbrev library : Linear → Dictrec → Option (Code × Dictrec × Linear)
library s r = lookup1 fs s r (codes "dict")

abbrev converted : Dictionary library (opened (map record_of entries))
converted =
    lookup1-Dictionary fs (codes "dict") (map record_of entries)
      (convert-shown entries 3 entries-IsEntry (omega arith))

raw_prompt_loop-find_example :
    raw_prompt_loop library 4
      (asked words)
      (record { word = []; text = [] })
      (opened (map record_of entries))
    ≡ some (finished (map (λ w. not_found (w ++ 0x0a ∷ [])) words))
raw_prompt_loop-find_example =
    raw_prompt_loop-find library (opened (map record_of entries)) converted entries words 4
      (record { word = []; text = [] }) entries-IsEntry (λ w. refl) words-IsAsked (omega arith)
