-- ===== src/LogServer/Commands.antt =====
-- The two programs of Assignment3 together: a level that the server sends, as the client's receiver
-- thread takes it.
use unx511_unix_systems_prog.Prelude.{
  ℕ, suc, ◌≤◌, ◌<◌, some, List, [], ◌∷◌, ◌++◌, length, take, ◌≡◌, refl, arith, ap, ◌∙◌, sym,
  length-append, All, take_self,
}
use mathlib.Core.List.{append_assoc}
use unx511_unix_systems_prog.Prelude.Int.{ℤ, pos, negsuc, IsInt}
use unx511_unix_systems_prog.Prelude.Bytes.{
  length-show_int, codes, show_int, c_string, IsText, IsDigit, show_nat-IsDigit,
  c_string-append_zero, scan_int-show_int,
}
use unx511_unix_systems_prog.LogServer.{command}
use unx511_unix_systems_prog.Logger
use unx511_unix_systems_prog.Logger.Filter.{rx_round-bytes, scan_command_literal}
use unx511_unix_systems_prog.Logger.{Logger, level_of, level_value, rx_round, scan_command}

IsText-of_digits : (s : List ℕ) → All IsDigit s → IsText s
IsText-of_digits [] h = tt
IsText-of_digits (c ∷ s) h = ((λ e. omega arith), IsText-of_digits s h.1)

show_int-IsText : (z : ℤ) → IsText (show_int z)
unfolding show_int
show_int-IsText (pos n) = IsText-of_digits _ (show_nat-IsDigit n)
show_int-IsText (negsuc n) = (omega arith, IsText-of_digits _ (show_nat-IsDigit (suc n)))

number_text :
    (s : List ℕ) → IsText s → length s ≤ 11 → c_string (take 2033 (s ++ (0 ∷ [])) ++ (0 ∷ [])) ≡ s
number_text s t h =
    ap (λ r. c_string (r ++ (0 ∷ [])))
      (take_self 2033 (s ++ (0 ∷ [])) (omega (arith, length-append {0} s (0 ∷ []))))
    ∙ ap c_string (append_assoc s (0 ∷ []) (0 ∷ []))
    ∙ c_string-append_zero s (0 ∷ []) t

command_text :
    (z : ℤ)
    → IsInt z
    → c_string (take 2047 (command z) ++ (0 ∷ [])) ≡ codes "Set Log Level=" ++ show_int z
unfolding command
command_text z h =
    ap (λ t. codes "Set Log Level=" ++ t)
      (number_text (show_int z) (show_int-IsText z) (length-show_int z h))

-- A command that the server sends for an `int` is read by the client's receiver thread as that
-- `int`: an `int` from 0 to 3 is the filter's level afterwards. Any other leaves the filter. In both
-- cases nothing else of the logger changes, and the thread does nothing outside.
pub rx_round-command :
    (z : ℤ) (l : Logger)
    → IsInt z
    → let (l', es) = rx_round (Logger.bytes (command z)) l in
      (l' ≡ record l { filter = l'.filter })
      × (es ≡ [])
      × ((n : ℕ) → z ≡ pos n → n ≤ 3 → level_value l'.filter ≡ n)
      × (((n : ℕ) → z ≡ pos n → 3 < n) → l'.filter ≡ l.filter)
rx_round-command z l h =
    let (same, inside, outside) = rx_round-bytes (command z) l in
    let read : scan_command (take 2047 (command z) ++ (0 ∷ [])) ≡ some z =
      scan_command_literal _ (show_int z) (command_text z h) ∙ scan_int-show_int z in
    (
      same,
      unfold rx_round in refl,
      (λ n e small. inside n (read ∙ ap some e) small),
      λ big. outside (λ n e. big n (let q : some z ≡ some (pos n) = sym read ∙ e in cc)),
    )
