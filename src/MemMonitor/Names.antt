-- ===== src/MemMonitor/Names.antt =====
-- Lab1/MemMonitor.cpp: the name that is read of a status file, as the kernel writes it.
use unx511_unix_systems_prog.Prelude.{
  ℕ, false, some, List, [], ◌∷◌, ◌++◌, ◌≡◌, ◌≢◌, refl, arith, ap, ◌∙◌, All, All-append,
}
use unx511_unix_systems_prog.Prelude.Bytes.{codes, is_space, drop_spaces}
use unx511_unix_systems_prog.MemMonitor.{take_word, drop_word, name_in, get_process_name}
use unx511_unix_systems_prog.MemMonitor.Status.{IsLine, is_line-IsLine, file_of, lines-file_of}

abbrev pub IsWord : List ℕ → Type 0
IsWord = All (λ c. is_space c ≡ false)

-- "Name:", a tab, the name.
abbrev pub name_line : List ℕ → List ℕ
name_line w = codes "Name:" ++ (9 ∷ w)

name_line-IsLine : (w : List ℕ) → IsLine w → IsLine (name_line w)
name_line-IsLine w h =
    All-append (λ c. c ≢ 10) (codes "Name:") (9 ∷ w) (is_line-IsLine (codes "Name:") refl)
      ((λ e. omega arith), h)

take_word_self : (w : List ℕ) → IsWord w → take_word w ≡ w
unfolding take_word
take_word_self [] h = refl
take_word_self (c ∷ w) h = rw h.0 (ap (◌∷◌ c) (take_word_self w h.1))

take_word-blank : (w more : List ℕ) → IsWord w → take_word (w ++ (32 ∷ more)) ≡ w
unfolding take_word
take_word-blank [] more h = refl
take_word-blank (c ∷ w) more h = rw h.0 (ap (◌∷◌ c) (take_word-blank w more h.1))

drop_spaces_word : (c : ℕ) (s : List ℕ) → is_space c ≡ false → drop_spaces (c ∷ s) ≡ c ∷ s
drop_spaces_word c s h = rw h refl

name_in-word :
    (c : ℕ) (s : List ℕ) (ls : List (List ℕ))
    → is_space c ≡ false
    → name_in (name_line (c ∷ s) ∷ ls) ≡ take_word (c ∷ s)
unfolding name_in drop_word
name_in-word c s ls h = ap take_word (drop_spaces_word c s h)

word-IsLine : (w : List ℕ) → IsWord w → IsLine w
word-IsLine [] h = tt
word-IsLine (c ∷ w) h = ((λ e. ground (arith, h.0)), word-IsLine w h.1)

-- The name in a status file's first line is taken whole if there is no blank in it. Of a name with a
-- blank in it the part before the blank is taken.
pub get_process_name_outcome :
    (c : ℕ) (w more : List ℕ) (post : List (List ℕ))
    → IsWord (c ∷ w)
    → IsLine more
    → All IsLine post
    → (get_process_name (some (file_of (name_line (c ∷ w) ∷ post))) ≡ c ∷ w)
      × (get_process_name (some (file_of (name_line (c ∷ (w ++ (32 ∷ more))) ∷ post))) ≡ c ∷ w)
unfolding get_process_name
get_process_name_outcome c w more post h hm hp =
    let word = word-IsLine (c ∷ w) h in
    let cut = All-append (λ d. d ≢ 10) (c ∷ w) (32 ∷ more) word ((λ e. omega arith), hm) in
    (
      ap name_in (lines-file_of (name_line (c ∷ w) ∷ post) (name_line-IsLine (c ∷ w) word, hp))
          ∙ name_in-word c w post h.0
          ∙ take_word_self (c ∷ w) h,
      ap name_in (
            lines-file_of (name_line (c ∷ (w ++ (32 ∷ more))) ∷ post)
              (name_line-IsLine (c ∷ (w ++ (32 ∷ more))) cut, hp))
          ∙ name_in-word c (w ++ (32 ∷ more)) post h.0
          ∙ take_word-blank (c ∷ w) more h,
    )
