-- ===== src/Prelude/Input.antt =====
-- Standard input as the C++ programs read it: `cin >> n`, `cin >> s`, `cin.ignore` and `cin.get`, with
-- the flags that a read may leave set. The input is the bytes that are still to come.
use Prim.Native.Nat.{ℕ, ◌^◌, ◌-◌, ◌≤◌, ◌<◌}
use mathlib.Core.Path.{◌≡◌, refl, sym, ap}
use mathlib.Core.Logic.{inl, inr}
use mathlib.Core.Bool.{Bool, true, false, not, ◌&&◌}
use mathlib.Core.Option.{Option, none, some}
use mathlib.Core.List.{List, [], ◌∷◌}
use native.Mathlib.Omega.{arith}
use unx511_unix_systems_prog.Prelude.Tests.{ltb, ltb→lt, ◌==◌, if◌then◌else◌, Bool-cases}
use unx511_unix_systems_prog.Prelude.Lists.{length}
use unx511_unix_systems_prog.Prelude.Int.{ℤ, pos, negsuc, IsInt}
use unx511_unix_systems_prog.Prelude.Bytes.{
  is_space, drop_spaces, scan_sign, scan_int, rest_of_number, length-drop_spaces,
  length-rest_of_number, rest_of_number_shorter,
}

pub record Cin : Type 0 where
  pub rest : List ℕ
  pub at_end : Bool
  pub failed : Bool

abbrev pub input : List ℕ → Cin
input s = record { rest = s; at_end = false; failed = false }

-- Neither flag is set.
abbrev pub good : Cin → Bool
good c = not c.at_end && not c.failed

-- A number out of range is read as the nearest `int`.
unfoldable pub clamp : ℤ → ℤ
clamp (pos n) = if ltb n (2 ^ 31) then pos n else pos (2 ^ 31 - 1)
clamp (negsuc n) = if ltb n (2 ^ 31) then negsuc n else negsuc (2 ^ 31 - 1)

abbrev in_range : ℤ → Bool
in_range (pos n) = ltb n (2 ^ 31)
in_range (negsuc n) = ltb n (2 ^ 31)

abbrev pub is_empty : List ℕ → Bool
is_empty [] = true
is_empty (c ∷ s) = false

-- The value and the flag: no number is read as zero.
unfoldable pub converted : Option ℤ → ℤ × Bool
unfolding clamp
converted none = (pos 0, true)
converted (some z) = (clamp z, not (in_range z))

-- The number behind the blanks.
unfoldable pub read_number : ℤ → List ℕ → ℤ × Cin
unfolding converted rest_of_number
read_number old [] = (old, record { rest = []; at_end = true; failed = true })
read_number old (c ∷ s) =
    let (z, wrong) = converted (scan_sign (c ∷ s)) in
    let left = rest_of_number (c ∷ s) in
    (z, record { rest = left; at_end = is_empty left; failed = wrong })

-- `cin >> n` for an `int` that holds `old`, which stays if a flag is set or only blanks are left.
unfoldable pub read_int : ℤ → Cin → ℤ × Cin
unfolding read_number
read_int old c =
    if good c then read_number old (drop_spaces c.rest) else (old, record c { failed = true })

skip_line : List ℕ → Cin
skip_line [] = record { rest = []; at_end = true; failed = false }
skip_line (c ∷ s) = if c == 10 then input s else skip_line s

-- cin.ignore(max, '\n').
unfoldable pub ignore_line : Cin → Cin
unfolding skip_line
ignore_line c = if good c then skip_line c.rest else record c { failed = true }

take_char : List ℕ → Cin
take_char [] = record { rest = []; at_end = true; failed = true }
take_char (c ∷ s) = input s

-- cin.get(key).
unfoldable pub get_char : Cin → Cin
unfolding take_char
get_char c = if good c then take_char c.rest else record c { failed = true }

-- The word at the front, and what follows it.
unfoldable pub split_word : List ℕ → List ℕ × List ℕ
split_word [] = ([], [])
split_word (c ∷ s) =
    let (w, left) = split_word s in if is_space c then ([], c ∷ s) else (c ∷ w, left)

unfoldable pub word_behind : List ℕ → List ℕ → List ℕ × Cin
unfolding split_word
word_behind old [] = (old, record { rest = []; at_end = true; failed = true })
word_behind old (c ∷ s) =
    let (w, left) = split_word (c ∷ s) in
    (w, record { rest = left; at_end = is_empty left; failed = false })

-- `cin >> s`: the next word. Without one the string that holds `old` stays.
unfoldable pub read_word : List ℕ → Cin → List ℕ × Cin
unfolding word_behind
read_word old c =
    if good c then word_behind old (drop_spaces c.rest) else (old, record c { failed = true })

length-skip_line : (s : List ℕ) → length (skip_line s).rest ≤ length s
unfolding skip_line
length-skip_line [] = omega arith
length-skip_line (c ∷ s) = ground (arith, length-skip_line s)

pub length-ignore_line : (c : Cin) → length (ignore_line c).rest ≤ length c.rest
unfolding ignore_line
length-ignore_line c = ground (arith, length-skip_line c.rest)

length-take_char : (s : List ℕ) → length (take_char s).rest ≤ length s
unfolding take_char
length-take_char [] = omega arith
length-take_char (c ∷ s) = omega arith

pub length-get_char : (c : Cin) → length (get_char c).rest ≤ length c.rest
unfolding get_char
length-get_char c = ground (arith, length-take_char c.rest)

length-read_number : (old : ℤ) (s : List ℕ) → length (read_number old s).1.rest ≤ length s
unfolding read_number
length-read_number old [] = omega arith
length-read_number old (c ∷ s) = length-rest_of_number (c ∷ s)

pub length-read_int : (old : ℤ) (c : Cin) → length (read_int old c).1.rest ≤ length c.rest
unfolding read_int
length-read_int old c =
    ground (arith, length-read_number old (drop_spaces c.rest), length-drop_spaces c.rest)

-- After a failed read, another read leaves the variable, the input and the flags as they are.
pub read_int_fails : (old : ℤ) (c : Cin) → c.failed ≡ true → read_int old c ≡ (old, c)
unfolding read_int
read_int_fails old c h =
    let bad : good c ≡ false = ground (arith, h) in
    rw bad (ap (λ f. (old, record c { failed = f })) (sym h))

pub read_int-bad :
    (old : ℤ) (c : Cin) → good c ≡ false → read_int old c ≡ (old, record c { failed = true })
unfolding read_int
read_int-bad old c h = rw h

pub ignore_line-bad : (c : Cin) → good c ≡ false → good (ignore_line c) ≡ false
unfolding ignore_line
ignore_line-bad c h = ground (arith, h)

pub get_char-bad : (c : Cin) → good c ≡ false → good (get_char c) ≡ false
unfolding get_char
get_char-bad c h = ground (arith, h)

take_char_takes : (s : List ℕ) → good (take_char s) ≡ true → length (take_char s).rest < length s
unfolding take_char
take_char_takes [] h = cc
take_char_takes (x ∷ s) h = omega arith

converted-some : (o : Option ℤ) → (converted o).1 ≡ false → (z : ℤ) × (o ≡ some z)
unfolding converted
converted-some none h = absurd cc
converted-some (some z) h = (z, refl)

read_number_takes :
    (old : ℤ) (s : List ℕ)
    → (read_number old s).1.failed ≡ false
    → length (read_number old s).1.rest < length s
unfolding read_number
read_number_takes old [] h = cc
read_number_takes old (c ∷ s) h =
    let (z, e) = converted-some (scan_sign (c ∷ s)) h in rest_of_number_shorter c s z e

-- A number that is read without a failure was there.
pub read_int_takes :
    (old : ℤ) (c : Cin)
    → (read_int old c).1.failed ≡ false
    → length (read_int old c).1.rest < length c.rest
unfolding read_int
read_int_takes old c h =
    ground (arith, read_number_takes old (drop_spaces c.rest), length-drop_spaces c.rest)

-- A key that leaves the stream good was one.
pub get_char_takes : (c : Cin) → good (get_char c) ≡ true → length (get_char c).rest < length c.rest
unfolding get_char
get_char_takes c h = ground (arith, take_char_takes c.rest)

length-split_word : (s : List ℕ) → length (split_word s).1 ≤ length s
unfolding split_word
length-split_word [] = omega arith
length-split_word (c ∷ s) = ground (arith, length-split_word s)

length-word_behind : (old s : List ℕ) → length (word_behind old s).1.rest ≤ length s
unfolding word_behind
length-word_behind old [] = omega arith
length-word_behind old (c ∷ s) = length-split_word (c ∷ s)

pub length-read_word : (old : List ℕ) (c : Cin) → length (read_word old c).1.rest ≤ length c.rest
unfolding read_word
length-read_word old c =
    ground (arith, length-word_behind old (drop_spaces c.rest), length-drop_spaces c.rest)

read_number-some : (old z : ℤ) (s : List ℕ) → scan_sign s ≡ some z → (read_number old s).0 ≡ clamp z
unfolding read_number converted scan_sign
read_number-some old z [] h = absurd cc
read_number-some old z (c ∷ s) h = ap (λ o. (converted o).0) h

-- What `%d` finds, `>>` gives, brought into the range.
pub read_int-scan_int :
    (old z : ℤ) (s : List ℕ) → scan_int s ≡ some z → (read_int old (input s)).0 ≡ clamp z
unfolding read_int scan_int
read_int-scan_int old z s h = read_number-some old z (drop_spaces s) h

pub clamp-IsInt : (z : ℤ) → IsInt (clamp z)
unfolding clamp
clamp-IsInt (pos n) = elim (Bool-cases (ltb n (2 ^ 31))) [
  | inl small ↦ rw small (ltb→lt n (2 ^ 31) small)
  | inr large ↦ rw large (omega arith)
]
clamp-IsInt (negsuc n) = elim (Bool-cases (ltb n (2 ^ 31))) [
  | inl small ↦ rw small (ltb→lt n (2 ^ 31) small)
  | inr large ↦ rw large (omega arith)
]

converted-IsInt : (o : Option ℤ) → IsInt (converted o).0
unfolding converted
converted-IsInt none = omega arith
converted-IsInt (some z) = clamp-IsInt z

read_number-IsInt : (old : ℤ) (s : List ℕ) → IsInt old → IsInt (read_number old s).0
unfolding read_number
read_number-IsInt old [] h = h
read_number-IsInt old (c ∷ s) h = converted-IsInt (scan_sign (c ∷ s))

-- A variable that is in range stays so.
pub read_int-IsInt : (old : ℤ) (c : Cin) → IsInt old → IsInt (read_int old c).0
unfolding read_int
read_int-IsInt old c h = elim (Bool-cases (good c)) [
  | inl fine ↦ rw fine (read_number-IsInt old (drop_spaces c.rest) h)
  | inr bad ↦ rw bad h
]
