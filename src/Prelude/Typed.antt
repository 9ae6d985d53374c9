-- ===== src/Prelude/Typed.antt =====
-- What a user types on lines of their own is what `cin >> n` and `cin >> s` read.
use Prim.Native.Nat.{ℕ, ◌<◌, ◌^◌}
use mathlib.Core.Path.{◌≡◌, refl, sym, ap, ◌∙◌}
use mathlib.Core.Bool.{false}
use mathlib.Core.Option.{some}
use mathlib.Core.List.{List, [], ◌∷◌, ◌++◌}
use native.Mathlib.Omega.{arith}
use unx511_unix_systems_prog.Prelude.Tests.{lt→ltb}
use unx511_unix_systems_prog.Prelude.Lists.{All}
use unx511_unix_systems_prog.Prelude.Int.{ℤ, pos}
use unx511_unix_systems_prog.Prelude.Bytes.{
  is_space, show_nat, show_nat_starts, scan_sign, scan_int, rest_of_number, scan_stream,
  scan_int-show_nat_rest, rest_of_number-show_nat, drop_spaces-show_nat,
}
use unx511_unix_systems_prog.Prelude.Input.{
  input, clamp, read_int, read_word, split_word, word_behind, read_number, converted,
}

-- Text without a blank.
abbrev pub NoSpace : List ℕ → Type 0
NoSpace = All (λ c. is_space c ≡ false)

split_word-end : (w rest : List ℕ) → NoSpace w → split_word (w ++ (10 ∷ rest)) ≡ (w, 10 ∷ rest)
unfolding split_word
split_word-end [] rest h = refl
split_word-end (c ∷ w) rest h = rw (split_word-end w rest h.1, h.0) refl

-- A word on the next line.
pub read_word_line :
    (old : List ℕ) (c : ℕ) (w rest : List ℕ)
    → NoSpace (c ∷ w)
    → read_word old (input (10 ∷ c ∷ w ++ (10 ∷ rest))) ≡ (c ∷ w, input (10 ∷ rest))
unfolding read_word word_behind
read_word_line old c w rest h = rw (h.0, split_word-end (c ∷ w) rest h) refl

read_digits :
    (old : ℤ) (c n : ℕ) (r rest : List ℕ)
    → n < 2 ^ 31
    → scan_sign (c ∷ r ++ (10 ∷ rest)) ≡ some (pos n)
    → rest_of_number (c ∷ r ++ (10 ∷ rest)) ≡ 10 ∷ rest
    → read_number old (c ∷ r ++ (10 ∷ rest)) ≡ (pos n, input (10 ∷ rest))
unfolding read_number converted clamp
read_digits old c n r rest h value left = rw (value, left, lt→ltb n (2 ^ 31) h) refl

-- A number in range on the first line.
pub read_int_line :
    (old : ℤ) (n : ℕ) (rest : List ℕ)
    → n < 2 ^ 31
    → read_int old (input (show_nat n ++ (10 ∷ rest))) ≡ (pos n, input (10 ∷ rest))
unfolding read_int scan_int
read_int_line old n rest h =
    let blanks = drop_spaces-show_nat 0 n (10 ∷ rest) in
    let value = ap scan_sign (sym blanks) ∙ scan_int-show_nat_rest n (10 ∷ rest) (omega arith) in
    let (c, r, e, d) = show_nat_starts n in
    ap (read_number old) blanks
    ∙ ap (λ s. read_number old (s ++ (10 ∷ rest))) e
    ∙ read_digits old c n r rest h (ap (λ s. scan_sign (s ++ (10 ∷ rest))) (sym e) ∙ value)
        (ap (λ s. rest_of_number (s ++ (10 ∷ rest))) (sym e) ∙ rest_of_number-show_nat n rest)

-- The same for scanf's `%d`, also behind the line's end that the last read has left.
pub scan_stream_line :
    (n : ℕ) (rest : List ℕ)
    → (scan_stream (show_nat n ++ (10 ∷ rest)) ≡ (some (pos n), 10 ∷ rest))
      × (scan_stream (10 ∷ show_nat n ++ (10 ∷ rest)) ≡ (some (pos n), 10 ∷ rest))
unfolding scan_stream scan_int
scan_stream_line n rest =
    let blanks = drop_spaces-show_nat 0 n (10 ∷ rest) in
    let value = ap scan_sign (sym blanks) ∙ scan_int-show_nat_rest n (10 ∷ rest) (omega arith) in
    let left = rest_of_number-show_nat n rest in
    (rw (blanks, value, left) refl, rw (blanks, value, left) refl)
