-- ===== src/Prelude/Bytes/Stream.antt =====
-- What `%d` leaves in the input that it reads from.
use Prim.Native.Nat.{ℕ, ◌≤◌, ◌<◌}
use mathlib.Core.Path.{◌≡◌, refl, sym, ap, ◌∙◌}
use mathlib.Core.Bool.{◌||◌}
use mathlib.Core.Option.{Option, some}
use mathlib.Core.List.{List, [], ◌∷◌, ◌++◌}
use native.Mathlib.Omega.{arith}
use unx511_unix_systems_prog.Prelude.Tests.{◌==◌, if◌then◌else◌}
use unx511_unix_systems_prog.Prelude.Lists.{All, length}
use unx511_unix_systems_prog.Prelude.Int.{ℤ}
use unx511_unix_systems_prog.Prelude.Bytes.Decimal.{
  is_digit, IsDigit, show_nat, show_nat-IsDigit, show_nat_starts, drop_spaces, scan_nat, scan_sign,
  scan_int, length-drop_spaces,
}

drop_digits : List ℕ → List ℕ
drop_digits [] = []
drop_digits (c ∷ s) = if is_digit c then drop_digits s else c ∷ s

-- What `%d` leaves in the input: a sign that no digit follows has been read.
unfoldable pub rest_of_number : List ℕ → List ℕ
unfolding drop_digits
rest_of_number [] = []
rest_of_number (c ∷ s) = if (c == 45) || (c == 43) then drop_digits s else drop_digits (c ∷ s)

-- scanf("%d") on a stream: the value, if there is one, and the input left.
unfoldable pub scan_stream : List ℕ → Option ℤ × List ℕ
unfolding rest_of_number
scan_stream s = (scan_int s, rest_of_number (drop_spaces s))

length-drop_digits : (s : List ℕ) → length (drop_digits s) ≤ length s
unfolding drop_digits
length-drop_digits [] = omega arith
length-drop_digits (c ∷ s) = ground (arith, length-drop_digits s)

pub length-rest_of_number : (s : List ℕ) → length (rest_of_number s) ≤ length s
unfolding rest_of_number
length-rest_of_number [] = omega arith
length-rest_of_number (c ∷ s) = ground (arith, length-drop_digits s)

-- scanf never puts back more than it was given.
pub length-scan_stream : (s : List ℕ) → length (scan_stream s).1 ≤ length s
unfolding scan_stream
length-scan_stream s = omega (arith, length-rest_of_number (drop_spaces s), length-drop_spaces s)

-- A number that `%d` finds is taken from the input.
pub rest_of_number_shorter :
    (c : ℕ) (s : List ℕ) (z : ℤ)
    → scan_sign (c ∷ s) ≡ some z
    → length (rest_of_number (c ∷ s)) < length (c ∷ s)
unfolding scan_sign scan_nat rest_of_number drop_digits
rest_of_number_shorter c s z h = ground (arith, length-drop_digits s)

drop_digits-append : (s rest : List ℕ) → All IsDigit s → drop_digits (s ++ rest) ≡ drop_digits rest
unfolding drop_digits
drop_digits-append [] rest h = refl
drop_digits-append (c ∷ s) rest h = ground (arith, drop_digits-append s rest h.1)

digit_first : (c : ℕ) (s : List ℕ) → IsDigit c → rest_of_number (c ∷ s) ≡ drop_digits (c ∷ s)
unfolding rest_of_number
digit_first c s h = ground arith

-- Behind a printed number the line's end is left.
pub rest_of_number-show_nat :
    (n : ℕ) (rest : List ℕ) → rest_of_number (show_nat n ++ (10 ∷ rest)) ≡ 10 ∷ rest
unfolding drop_digits
rest_of_number-show_nat n rest =
    let (c, r, e, d) = show_nat_starts n in
    ap (λ s. rest_of_number (s ++ (10 ∷ rest))) e
    ∙ digit_first c (r ++ (10 ∷ rest)) d
    ∙ ap (λ s. drop_digits (s ++ (10 ∷ rest))) (sym e)
    ∙ drop_digits-append (show_nat n) (10 ∷ rest) (show_nat-IsDigit n)
