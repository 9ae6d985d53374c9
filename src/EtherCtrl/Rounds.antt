-- ===== src/EtherCtrl/Rounds.antt =====
-- Lab3/etherCtrl.cpp: what the menu does on numbers that are typed on lines of their own.
use unx511_unix_systems_prog.Prelude.{ℕ, suc, ◌≤◌, ◌<◌, ◌^◌, true, List, [], ◌∷◌, ◌++◌}
use unx511_unix_systems_prog.Prelude.Int.{pos}
use unx511_unix_systems_prog.Prelude.Bytes.{show_nat}
use unx511_unix_systems_prog.Prelude.Input.{Cin}
use unx511_unix_systems_prog.EtherCtrl.{
  Request, Reply, Effect, shows_menu, says, asks_key, clears, select,
}

-- A selection on its line, and the key after it.
abbrev pub IsRound : ℕ × ℕ → Type 0
IsRound (n, key) = (1 ≤ n) × (n < 2 ^ 31)

abbrev pub typed : List (ℕ × ℕ) → List ℕ → List ℕ
typed [] s = s
typed ((n, key) ∷ rs) s = show_nat n ++ (10 ∷ key ∷ typed rs s)

-- What is seen of the rounds, from round k on, and then of the rest.
abbrev pub shown : ℕ → (ℕ → Request → Reply) → List (ℕ × ℕ) → (ℕ → List Effect) → List Effect
shown k ioctl [] last = last k
shown k ioctl ((n, key) ∷ rs) last =
    shows_menu ∷ says (select (ioctl k) (pos n)) ∷ asks_key ∷ clears ∷ shown (suc k) ioctl rs last

abbrev nothing : Cin
nothing = record { rest = []; at_end = true; failed = true }
