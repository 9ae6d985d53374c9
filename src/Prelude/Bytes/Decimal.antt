-- ===== src/Prelude/Bytes/Decimal.antt =====
-- printf's and scanf's `%d`, over lists of character codes.
use Prim.Native.Nat.{ℕ, zero, suc, ◌+◌, ◌-◌, ◌*◌, ◌/◌, ◌%◌, ◌^◌, ◌≤◌, ◌<◌}
use mathlib.Core.Path.{◌≡◌, sym, ap, ◌∙◌}
use mathlib.Core.Logic.{inl, inr}
use mathlib.Core.Bool.{Bool, true, ◌&&◌, ◌||◌}
use mathlib.Core.Option.{Option, none, some}
use mathlib.Core.List.{List, [], ◌∷◌}
use native.Mathlib.Omega.{arith}
use unx511_unix_systems_prog.Prelude.Tests.{leb, ◌==◌, if◌then◌else◌, Bool-cases}
use unx511_unix_systems_prog.Prelude.Lists.{All, length}
use unx511_unix_systems_prog.Prelude.Int.{ℤ, pos, negsuc}

abbrev pub is_digit : ℕ → Bool
is_digit c = leb 48 c && leb c 57

-- isspace: the blank and the codes 9 to 13.
abbrev pub is_space : ℕ → Bool
is_space c = (c == 32) || (leb 9 c && leb c 13)

-- The digits of `n`, put in front of `acc`; `n + 1` rounds are enough.
unfoldable pub decimal_onto : ℕ → ℕ → List ℕ → List ℕ
decimal_onto zero n acc = acc
decimal_onto (suc f) n acc =
    let more = decimal_onto f (n / 10) ((48 + n % 10) ∷ acc) in
    if n / 10 == 0 then (48 + n % 10) ∷ acc else more

unfoldable pub show_nat : ℕ → List ℕ
unfolding decimal_onto
show_nat n = decimal_onto (suc n) n []

unfoldable pub show_int : ℤ → List ℕ
show_int (pos n) = show_nat n
show_int (negsuc n) = 45 ∷ show_nat (suc n)

abbrev pub drop_spaces : List ℕ → List ℕ
drop_spaces [] = []
drop_spaces (c ∷ s) = if is_space c then drop_spaces s else c ∷ s

-- The value of the digits in front, with `v` read before them.
unfoldable pub scan_digits : ℕ → List ℕ → ℕ
scan_digits v [] = v
scan_digits v (c ∷ s) = if is_digit c then scan_digits (v * 10 + (c - 48)) s else v

-- At least one digit is needed.
unfoldable pub scan_nat : List ℕ → Option ℕ
scan_nat [] = none
scan_nat (c ∷ s) = if is_digit c then some (scan_digits 0 (c ∷ s)) else none

abbrev negate : ℕ → ℤ
negate zero = pos 0
negate (suc n) = negsuc n

unfoldable pub scan_sign : List ℕ → Option ℤ
scan_sign [] = none
scan_sign (c ∷ s) =
    if c == 45
    then elim (scan_nat s) [ none ↦ none | some n ↦ some (negate n) ]
    else elim (scan_nat (if c == 43 then s else c ∷ s)) [ none ↦ none | some n ↦ some (pos n) ]

-- `%d`: blanks are skipped, then an optional sign and digits.
unfoldable pub scan_int : List ℕ → Option ℤ
scan_int s = scan_sign (drop_spaces s)

abbrev pub IsDigit : ℕ → Type 0
IsDigit c = (48 ≤ c) × (c ≤ 57)

scan_digits-digit :
    (v d : ℕ) (s : List ℕ) → d < 10 → scan_digits v ((48 + d) ∷ s) ≡ scan_digits (v * 10 + d) s
unfolding scan_digits
scan_digits-digit v d s h = ground arith

pub scan_digits-decimal_onto :
    (f n : ℕ) (acc : List ℕ) → n < f → scan_digits 0 (decimal_onto f n acc) ≡ scan_digits n acc
unfolding decimal_onto
scan_digits-decimal_onto zero n acc h = absurd (omega arith)
scan_digits-decimal_onto (suc f) n acc h = elim (Bool-cases (n / 10 == 0)) [
  | inl small ↦
      rw small (
        scan_digits-digit 0 (n % 10) acc (omega arith) ∙ ap (λ v. scan_digits v acc) (ground arith))
  | inr large ↦ rw large (
      scan_digits-decimal_onto f (n / 10) ((48 + n % 10) ∷ acc) (ground arith)
      ∙ scan_digits-digit (n / 10) (n % 10) acc (omega arith)
      ∙ ap (λ v. scan_digits v acc) (omega arith))
]

decimal_onto-IsDigit :
    (f n : ℕ) (acc : List ℕ) → All IsDigit acc → All IsDigit (decimal_onto f n acc)
unfolding decimal_onto
decimal_onto-IsDigit zero n acc h = h
decimal_onto-IsDigit (suc f) n acc h = elim (Bool-cases (n / 10 == 0)) [
  | inl small ↦ rw small ((omega arith, omega arith), h)
  | inr large ↦
      rw large
        (decimal_onto-IsDigit f (n / 10) ((48 + n % 10) ∷ acc) ((omega arith, omega arith), h))
]

-- A printed number has only digits.
pub show_nat-IsDigit : (n : ℕ) → All IsDigit (show_nat n)
unfolding show_nat
show_nat-IsDigit n = decimal_onto-IsDigit (suc n) n [] tt

abbrev StartsWithDigit : List ℕ → Type 0
StartsWithDigit s = (c : ℕ) × (r : List ℕ) × (s ≡ c ∷ r) × IsDigit c

decimal_onto_starts : (f n : ℕ) (acc : List ℕ) → n < f → StartsWithDigit (decimal_onto f n acc)
unfolding decimal_onto
decimal_onto_starts zero n acc h = absurd (omega arith)
decimal_onto_starts (suc f) n acc h = elim (Bool-cases (n / 10 == 0)) [
  | inl small ↦ (48 + n % 10, acc, rw small, (omega arith, omega arith))
  | inr large ↦ rw large (decimal_onto_starts f (n / 10) ((48 + n % 10) ∷ acc) (ground arith))
]

-- Printing a number gives at least one digit.
pub show_nat_starts : (n : ℕ) → StartsWithDigit (show_nat n)
unfolding show_nat
show_nat_starts n = decimal_onto_starts (suc n) n [] (omega arith)

scan_digits-show_nat : (n : ℕ) → scan_digits 0 (show_nat n) ≡ n
unfolding show_nat scan_digits
scan_digits-show_nat n = scan_digits-decimal_onto (suc n) n [] (omega arith)

pub scan_nat-digit :
    (c : ℕ) (s : List ℕ) → IsDigit c → scan_nat (c ∷ s) ≡ some (scan_digits 0 (c ∷ s))
unfolding scan_nat
scan_nat-digit c s d = ground arith

scan_nat-show_nat : (n : ℕ) → scan_nat (show_nat n) ≡ some n
scan_nat-show_nat n =
    let (c, r, e, d) = show_nat_starts n in
    ap scan_nat e
    ∙ scan_nat-digit c r d
    ∙ ap (λ s. some (scan_digits 0 s)) (sym e)
    ∙ ap some (scan_digits-show_nat n)

pub scan_int-digit :
    (c : ℕ) (s : List ℕ) (n : ℕ)
    → IsDigit c
    → scan_nat (c ∷ s) ≡ some n
    → scan_int (c ∷ s) ≡ some (pos n)
unfolding scan_int scan_sign
scan_int-digit c s n d e = ground arith

scan_int-minus :
    (s : List ℕ) (n : ℕ) → scan_nat s ≡ some (suc n) → scan_int (45 ∷ s) ≡ some (negsuc n)
unfolding scan_int scan_sign
scan_int-minus s n e = rw e

-- What `%d` prints, `%d` reads back.
pub scan_int-show_int : (z : ℤ) → scan_int (show_int z) ≡ some z
unfolding show_int
scan_int-show_int (pos n) =
    let (c, r, e, d) = show_nat_starts n in
    ap scan_int e ∙ scan_int-digit c r n d (ap scan_nat (sym e) ∙ scan_nat-show_nat n)
scan_int-show_int (negsuc n) = scan_int-minus (show_nat (suc n)) n (scan_nat-show_nat (suc n))

length-decimal_onto :
    (f k n : ℕ) (acc : List ℕ) → n < 10 ^ suc k → length (decimal_onto f n acc) ≤ length acc + suc k
unfolding decimal_onto
length-decimal_onto zero k n acc h = omega arith
length-decimal_onto (suc f) zero n acc h =
    let small : (n / 10 == 0) ≡ true = ground arith in rw small (omega arith)
length-decimal_onto (suc f) (suc k) n acc h = elim (Bool-cases (n / 10 == 0)) [
  | inl small ↦ rw small (omega arith)
  | inr large ↦
      rw large (omega (arith, length-decimal_onto f k (n / 10) ((48 + n % 10) ∷ acc) (omega arith)))
]

-- A number below 10 ^ (k + 1) is printed with at most k + 1 digits.
pub length-show_nat : (k n : ℕ) → n < 10 ^ suc k → length (show_nat n) ≤ suc k
unfolding show_nat
length-show_nat k n h = omega (arith, length-decimal_onto (suc n) k n [] h)

pub length-drop_spaces : (s : List ℕ) → length (drop_spaces s) ≤ length s
length-drop_spaces [] = omega arith
length-drop_spaces (c ∷ s) = ground (arith, length-drop_spaces s)
