-- ===== src/Prelude/Bytes/Fields.antt =====
-- A number inside a text: what `%d` and `>>` read of it when blanks stand before and other
-- characters behind it.
use Prim.Native.Nat.{ℕ, zero, suc, ◌<◌, ◌≤◌, ◌+◌, ◌/◌, ◌%◌}
use mathlib.Core.Path.{◌≡◌, refl, sym, ap, ◌∙◌}
use mathlib.Core.Option.{some}
use mathlib.Core.List.{List, [], ◌∷◌, ◌++◌}
use native.Mathlib.Omega.{arith}
use unx511_unix_systems_prog.Prelude.Int.{ℤ, pos, negsuc, IsInt}
use unx511_unix_systems_prog.Prelude.Lists.{length, replicate}
use unx511_unix_systems_prog.Prelude.Bytes.Decimal.{
  decimal_onto, show_nat, drop_spaces, scan_digits, scan_int, scan_digits-decimal_onto,
  show_nat_starts, show_int, length-show_nat, scan_nat-digit, scan_int-digit,
}

-- Nothing that goes on with a number.
abbrev pub EndsNumber : List ℕ → Type 0
EndsNumber [] = Unit
EndsNumber (c ∷ s) = c < 48

decimal_onto-append :
    (f n : ℕ) (acc rest : List ℕ) → decimal_onto f n acc ++ rest ≡ decimal_onto f n (acc ++ rest)
unfolding decimal_onto
decimal_onto-append zero n acc rest = refl
decimal_onto-append (suc f) n acc rest =
    ground (arith, decimal_onto-append f (n / 10) ((48 + n % 10) ∷ acc) rest)

scan_digits-end : (n : ℕ) (rest : List ℕ) → EndsNumber rest → scan_digits n rest ≡ n
unfolding scan_digits
scan_digits-end n [] h = refl
scan_digits-end n (c ∷ s) h = ground arith

scan_digits_rest :
    (n : ℕ) (rest : List ℕ) → EndsNumber rest → scan_digits 0 (show_nat n ++ rest) ≡ n
unfolding show_nat
scan_digits_rest n rest h =
    ap (scan_digits 0) (decimal_onto-append (suc n) n [] rest)
    ∙ scan_digits-decimal_onto (suc n) n rest (omega arith)
    ∙ scan_digits-end n rest h

-- A printed number is read as itself up to the first character that is not a digit.
pub scan_int-show_nat_rest :
    (n : ℕ) (rest : List ℕ) → EndsNumber rest → scan_int (show_nat n ++ rest) ≡ some (pos n)
scan_int-show_nat_rest n rest h =
    let (c, r, e, d) = show_nat_starts n in
    let value = scan_digits_rest n rest h in
    ap (λ s. scan_int (s ++ rest)) e
    ∙ scan_int-digit c (r ++ rest) n d (
        scan_nat-digit c (r ++ rest) d
        ∙ ap some (ap (λ s. scan_digits 0 (s ++ rest)) (sym e) ∙ value))

-- Blanks in front of a printed number are skipped, and no more.
pub drop_spaces-show_nat :
    (k n : ℕ) (rest : List ℕ)
    → drop_spaces (replicate k 32 ++ (show_nat n ++ rest)) ≡ show_nat n ++ rest
drop_spaces-show_nat zero n rest =
    let (c, r, e, d) = show_nat_starts n in
    let digit : drop_spaces (c ∷ (r ++ rest)) ≡ c ∷ (r ++ rest) = ground arith in
    ap (λ s. drop_spaces (s ++ rest)) e ∙ digit ∙ ap (λ s. s ++ rest) (sym e)
drop_spaces-show_nat (suc k) n rest = drop_spaces-show_nat k n rest

-- An `int` is printed with at most eleven characters.
pub length-show_int : (z : ℤ) → IsInt z → length (show_int z) ≤ 11
unfolding show_int
length-show_int (pos n) h = omega (arith, length-show_nat 9 n (omega arith))
length-show_int (negsuc n) h = omega (arith, length-show_nat 9 (suc n) (omega arith))
