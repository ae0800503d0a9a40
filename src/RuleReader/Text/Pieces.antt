-- ===== src/RuleReader/Text/Pieces.antt =====
-- src/rule_parser/classbench_rule_parser.cpp: `RuleReader::split` and the words of a line, on texts
-- that are put together from pieces.
use pclass_vectorized.Prelude.{
  ℕ, ◌≡◌, refl, ap, ◌∙◌, true, false, List, [], ◌∷◌, ◌++◌, arith, ◌==◌, All, All-append,
}
use pclass_vectorized.RuleReader.Text.{split, prepend, words, ends_word, is_space}

-- The text does not have this character.
abbrev pub Lacks : ℕ → List ℕ → Type 0
Lacks delim w = All (λ c. (c == delim) ≡ false) w

-- A text of one word: it is not empty and has no space.
abbrev pub IsWord : List ℕ → Type 0
IsWord [] = ⊥
IsWord (c ∷ w) = All (λ x. is_space x ≡ false) (c ∷ w)

-- The text up to a delimiter is the first piece.
pub split-append :
    (w s : List ℕ) (delim : ℕ) → Lacks delim w → split (w ++ delim ∷ s) delim ≡ w ∷ split s delim
unfolding split
split-append [] s delim h = ground arith
split-append (c ∷ w) s delim h = rw (split-append w s delim h.1) (rw h.0 refl)

-- A text with no delimiter is one piece.
pub split_last :
    (c : ℕ) (w : List ℕ) (delim : ℕ) → Lacks delim (c ∷ w) → split (c ∷ w) delim ≡ (c ∷ w) ∷ []
unfolding split
split_last c [] delim h = rw h.0 refl
split_last c (d ∷ w) delim h = rw (split_last d w delim h.1) (rw h.0 refl)

pub words_space : (c : ℕ) (s : List ℕ) → is_space c ≡ true → words (c ∷ s) ≡ words s
unfolding words
words_space c s h = rw h refl

words_letter :
    (c d : ℕ) (s : List ℕ)
    → is_space c ≡ false
    → is_space d ≡ false
    → words (c ∷ d ∷ s) ≡ prepend c (words (d ∷ s))
unfolding words
words_letter c d s h h' = rw h (rw h' refl)

words_end :
    (c : ℕ) (s : List ℕ)
    → is_space c ≡ false
    → ends_word s ≡ true
    → words (c ∷ s) ≡ (c ∷ []) ∷ words s
unfolding words
words_end c s h h' = rw h (rw h' refl)

-- The text up to a space, or to the end, is the first word.
pub words-append : (w s : List ℕ) → IsWord w → ends_word s ≡ true → words (w ++ s) ≡ w ∷ words s
words-append [] s h e = absurd h
words-append (c ∷ []) s h e = words_end c s h.0 e
words-append (c ∷ d ∷ w) s h e =
    words_letter c d (w ++ s) h.0 h.1.0 ∙ ap (prepend c) (words-append (d ∷ w) s h.1 e)

pub IsWord-append : (w s : List ℕ) → IsWord w → All (λ x. is_space x ≡ false) s → IsWord (w ++ s)
IsWord-append [] s h all = absurd h
IsWord-append (c ∷ w) s h all = All-append (λ x. is_space x ≡ false) (c ∷ w) s h all
