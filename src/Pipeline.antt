-- ===== src/Pipeline.antt =====
-- Lab7/Lab7.cpp: two commands, given as two texts, whose processes are joined by a pipe. A process's
-- open descriptors are a table.
mod Words
mod Ends
mod Program
mod Examples
use unx511_unix_systems_prog.Prelude.{
  ℕ, zero, suc, ◌-◌, Bool, Option, none, some, List, [], ◌∷◌, ltb, ◌==◌, if◌then◌else◌, length,
}

abbrev pub max_args : ℕ
max_args = 4

abbrev pub max_len : ℕ
max_len = 32

-- strtok with " ": blanks in front are skipped; the token ends at a blank, which is used up.
unfoldable pub drop_blanks : List ℕ → List ℕ
drop_blanks [] = []
drop_blanks (c ∷ s) = if c == 32 then drop_blanks s else c ∷ s

unfoldable pub token_of : List ℕ → List ℕ
token_of [] = []
token_of (c ∷ s) = if c == 32 then [] else c ∷ token_of s

unfoldable pub after_token : List ℕ → List ℕ
after_token [] = []
after_token (c ∷ s) = if c == 32 then s else after_token s

abbrev split_token : List ℕ → Option (List ℕ × List ℕ)
split_token [] = none
split_token (c ∷ s) = some (token_of (c ∷ s), after_token (c ∷ s))

unfoldable pub strtok : List ℕ → Option (List ℕ × List ℕ)
strtok s = split_token (drop_blanks s)

-- `while (token != NULL && i < MAX_ARGS - 1)`, with the number of slots that are left. The slots
-- that are not filled stay NULL, the last one always.
unfoldable pub tokenize : ℕ → List ℕ → List (List ℕ)
tokenize zero s = []
tokenize (suc slots) s = elim (strtok s) [
  | none ↦ []
  | some (token, rest) ↦ token ∷ tokenize slots rest
]

-- strcpy into MAX_LEN bytes: `none` is a write past the end.
abbrev pub strcpy : List ℕ → Option (List ℕ)
strcpy s = if ltb (length s) max_len then some s else none

pub data Outcome : Type 0 where
  usage overflow : Outcome
  commands : List (List ℕ) → List (List ℕ) → Outcome

unfoldable run_copies : Option (List ℕ) → Option (List ℕ) → Outcome
run_copies none b = overflow
run_copies (some a) none = overflow
run_copies (some a) (some b) = commands (tokenize (max_args - 1) a) (tokenize (max_args - 1) b)

-- main up to the pipe, on argv[1] and the arguments behind it.
unfoldable pub parse_arguments : List (List ℕ) → Outcome
unfolding run_copies
parse_arguments (a ∷ b ∷ []) = run_copies (strcpy a) (strcpy b)
parse_arguments _ = usage

-- What a descriptor stands for.
pub data File : Type 0 where
  read_end write_end : File
  other : ℕ → File

abbrev pub Table : Type 0
Table = ℕ → Option File

abbrev pub put : ℕ → Option File → Table → Table
put fd f t k = if fd == k then f else t k

abbrev pub dup2 : ℕ → ℕ → Table → Table
dup2 from to t = put to (t from) t

abbrev pub close : ℕ → Table → Table
close fd t = put fd none t

-- pipe(pipefd) with the two descriptors that it picks.
abbrev pub pipe : ℕ → ℕ → Table → Table
pipe r w t = put w (some write_end) (put r (some read_end) t)

-- The tables of the two children when they call execvp, and of the parent when it waits.
pub first_child : ℕ → ℕ → Table → Table
first_child r w t = close w (close r (dup2 w 1 t))

pub second_child : ℕ → ℕ → Table → Table
second_child r w t = close r (close w (dup2 r 0 t))

pub parent : ℕ → ℕ → Table → Table
parent r w t = close w (close r t)
