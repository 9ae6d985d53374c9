-- ===== src/Pipeline/Words.antt =====
-- Lab7/Lab7.cpp: the tokens are the words of the text.
use unx511_unix_systems_prog.Prelude.{
  ℕ, zero, suc, none, some, List, [], ◌∷◌, ◌==◌, if◌then◌else◌, take, ◌≡◌, refl, ◌≢◌, arith,
  Bool-cases, inl, inr, ap, ◌∙◌, sym,
}
use unx511_unix_systems_prog.Pipeline.{
  drop_blanks, token_of, after_token, split_token, strtok, tokenize,
}

-- A word in progress, put in front of the words behind it.
abbrev pub push : List ℕ → List (List ℕ) → List (List ℕ)
push [] ws = ws
push (c ∷ w) ws = (c ∷ w) ∷ ws

-- In one pass from the right: the word at the front (empty before a blank) and those behind it.
abbrev pub split : List ℕ → List ℕ × List (List ℕ)
split [] = ([], [])
split (c ∷ s) =
    let rest = split s in if c == 32 then ([], push rest.0 rest.1) else (c ∷ rest.0, rest.1)

-- The words of a text: its longest runs without a blank.
abbrev pub words : List ℕ → List (List ℕ)
words s = push (split s).0 (split s).1

split-token : (s : List ℕ) → split s ≡ (token_of s, words (after_token s))
unfolding token_of after_token
split-token [] = refl
split-token (c ∷ s) = ground (arith, split-token s)

words-drop_blanks : (s : List ℕ) → words (drop_blanks s) ≡ words s
unfolding drop_blanks
words-drop_blanks [] = refl
words-drop_blanks (c ∷ s) = ground (arith, words-drop_blanks s)

abbrev StartsDark : List ℕ → Type 0
StartsDark [] = Unit
StartsDark (c ∷ s) = c ≢ 32

drop_blanks-StartsDark : (s : List ℕ) → StartsDark (drop_blanks s)
unfolding drop_blanks
drop_blanks-StartsDark [] = tt
drop_blanks-StartsDark (c ∷ s) = elim (Bool-cases (c == 32)) [
  | inl blank ↦ rw blank (drop_blanks-StartsDark s)
  | inr dark ↦ rw dark (λ e. ground arith)
]

words_dark :
    (c : ℕ) (s : List ℕ) → c ≢ 32 → words (c ∷ s) ≡ token_of (c ∷ s) ∷ words (after_token (c ∷ s))
unfolding token_of
words_dark c s h =
    ap (λ (r : List ℕ × List (List ℕ)). push r.0 r.1) (split-token (c ∷ s)) ∙ ground arith

-- One round of the loop, on a text that does not begin with a blank.
round_words :
    (slots : ℕ) (d : List ℕ)
    → StartsDark d
    → ((r : List ℕ) → tokenize slots r ≡ take slots (words r))
    → elim (split_token d) [ none ↦ [] | some (token, rest) ↦ token ∷ tokenize slots rest ]
      ≡ take (suc slots) (words d)
round_words slots [] h ih = refl
round_words slots (c ∷ s) h ih =
    ap (◌∷◌ (token_of (c ∷ s))) (ih (after_token (c ∷ s)))
    ∙ ap (take (suc slots)) (sym (words_dark c s h))

-- The arguments of a command are the first words of its text, at most as many as there are slots.
pub tokenize-words : (slots : ℕ) (s : List ℕ) → tokenize slots s ≡ take slots (words s)
unfolding tokenize strtok
tokenize-words zero s = refl
tokenize-words (suc slots) s =
    round_words slots (drop_blanks s) (drop_blanks-StartsDark s) (tokenize-words slots)
    ∙ ap (take (suc slots)) (words-drop_blanks s)
