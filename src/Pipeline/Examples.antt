-- ===== src/Pipeline/Examples.antt =====
-- Lab7/Lab7.cpp: runs on texts and tables, and its theorems at them.
use unx511_unix_systems_prog.Prelude.{
  replicate, ltb, if◌then◌else◌, ℕ, ◌≢◌, none, some, List, [], ◌∷◌, ◌≡◌, refl, arith,
}
use unx511_unix_systems_prog.Prelude.Bytes.{codes}
use unx511_unix_systems_prog.Pipeline.{
  overflow, read_end, write_end, other, Table, pipe, first_child, commands, tokenize,
  parse_arguments, strtok, drop_blanks, token_of, after_token,
}
use unx511_unix_systems_prog.Pipeline.Words.{tokenize-words}
use unx511_unix_systems_prog.Pipeline.Ends.{pipe_ends}

abbrev text : List ℕ
text = codes "  ls -l  /tmp x"

tokenize_runs : tokenize 3 text ≡ codes "ls" ∷ codes "-l" ∷ codes "/tmp" ∷ []
unfolding tokenize strtok drop_blanks token_of after_token
tokenize_runs = refl

tokenize-words_example : tokenize 3 text ≡ codes "ls" ∷ codes "-l" ∷ codes "/tmp" ∷ []
tokenize-words_example = tokenize-words 3 text

parse_arguments_runs :
    parse_arguments (text ∷ codes "wc -l" ∷ [])
    ≡ commands (codes "ls" ∷ codes "-l" ∷ codes "/tmp" ∷ []) (codes "wc" ∷ codes "-l" ∷ [])
unfolding parse_arguments tokenize strtok drop_blanks token_of after_token
parse_arguments_runs = refl

parse_arguments_overflows : parse_arguments (replicate 32 97 ∷ text ∷ []) ≡ overflow
unfolding parse_arguments
parse_arguments_overflows = refl

-- Only the three standard descriptors are open.
abbrev standard : Table
standard k = if ltb k 3 then some (other k) else none

standard_clean : (n : ℕ) → (standard n ≢ some read_end) × (standard n ≢ some write_end)
standard_clean n = ((λ e. ground arith), λ e. ground arith)

pipe_ends_example : first_child 3 4 (pipe 3 4 standard) 1 ≡ some write_end
pipe_ends_example =
    (pipe_ends 3 4 5 standard (omega arith) (omega arith) (omega arith) standard_clean).0
