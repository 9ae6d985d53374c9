-- ===== src/LogServer/Menu.antt =====
-- Assignment3/server/LogServer.cpp: the menu loop ends on every input.
use unx511_unix_systems_prog.Prelude.{
  ℕ, zero, suc, ◌≤◌, ◌<◌, Option, none, some, List, [], ◌∷◌, length, ◌≡◌, ◌≢◌, arith, Option-cases,
  inl, inr,
}
use unx511_unix_systems_prog.Prelude.Int.{ℤ}
use unx511_unix_systems_prog.Prelude.Bytes.{scan_stream, length-scan_stream}
use unx511_unix_systems_prog.LogServer.{
  Server, Effect, flush_line, drop_char, set_level, select, menu_loop,
}

length-flush_line : (s : List ℕ) → length (flush_line s) ≤ length s
unfolding flush_line
length-flush_line [] = omega arith
length-flush_line (c ∷ s) = ground (arith, length-flush_line s)

length-drop_char : (s : List ℕ) → length (drop_char s) ≤ length s
unfolding drop_char
length-drop_char [] = omega arith
length-drop_char (c ∷ s) = omega arith

length-set_level : (r : Option ℤ × List ℕ) (g : Server) → length (set_level r g).0 ≤ length r.1
unfolding set_level
length-set_level (none, rest) g = length-flush_line rest
length-set_level (some lvl, rest) g = length-flush_line rest

length-select : (ch : ℕ) (s : List ℕ) (g : Server) → length (select ch s g).1 ≤ length s
unfolding select
length-select ch s g = ground (
  arith,
  length-set_level (scan_stream (flush_line s)) g,
  length-flush_line s,
  length-scan_stream (flush_line s),
  length-drop_char (flush_line s),
)

menu_loop-ne-none : (f : ℕ) (s : List ℕ) (g : Server) → length s < f → menu_loop f s g ≢ none
unfolding menu_loop
menu_loop-ne-none zero s g h = absurd (omega arith)
menu_loop-ne-none (suc f) [] g h = λ e. cc
menu_loop-ne-none (suc f) (ch ∷ s) g h = ground (
  arith,
  length-select ch s g,
  menu_loop-ne-none f s g,
  menu_loop-ne-none f (select ch s g).1 (select ch s g).0,
)

-- With more fuel than characters of input the menu loop returns, in every state.
pub menu_loop_total :
    (f : ℕ) (s : List ℕ) (g : Server)
    → length s < f
    → (r : Server × List Effect) × (menu_loop f s g ≡ some r)
menu_loop_total f s g h = elim (Option-cases (menu_loop f s g)) [
  | inl e ↦ absurd (menu_loop-ne-none f s g h e)
  | inr found ↦ found
]
