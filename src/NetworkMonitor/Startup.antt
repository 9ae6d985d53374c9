-- ===== src/NetworkMonitor/Startup.antt =====
-- assignment2/src/networkMonitor.cpp: main from the prompts on. Standard input is what the user types.
use unx511_unix_systems_prog.Prelude.{ℕ, zero, suc, Bool, Option, none, some, List, [], ◌∷◌, length}
use unx511_unix_systems_prog.Prelude.Int.{ℤ, pos, negsuc}
use unx511_unix_systems_prog.Prelude.Bytes.{codes}
use unx511_unix_systems_prog.Prelude.Input.{Cin, read_int, read_word}
use unx511_unix_systems_prog.Prelude.Setup.{
  Act, local, unlinked, bound, listened, complained, Setup, Result, ok, exits, ◌>>=◌, ◌>>◌, pure,
  act, check, open_or_exit,
}
use unx511_unix_systems_prog.NetworkMonitor.{Effect, Arrival, Readiness, session}

abbrev pub socket_path : List ℕ
socket_path = codes "/tmp/netmon.sock"

-- One interface after the other, each into an empty string.
unfoldable pub prompt_names : ℕ → Cin → List (List ℕ)
prompt_names zero c = []
prompt_names (suc n) c = let (name, c') = read_word [] c in name ∷ prompt_names n c'

-- The vector of that many strings; its constructor throws for a negative number.
abbrev names_for : ℤ → Cin → Option (List (List ℕ))
names_for (pos n) c = some (prompt_names n c)
names_for (negsuc n) c = none

-- The interfaces, with what num_interfaces holds before it is read.
unfoldable pub prompts : ℤ → Cin → Option (List (List ℕ))
prompts junk c = let (n, c') = read_int junk c in names_for n c'

-- socket's answer, and whether bind succeeds; the result of listen is not looked at.
pub record Answers : Type 0 where
  pub socket : Option ℕ
  pub bind_ok : Bool

-- The socket for that many interfaces.
unfoldable pub start : ℕ → Answers → Setup ℕ
start n a = do
  act (unlinked socket_path)
  fd ← open_or_exit a.socket (complained (codes "socket") ∷ []) (pos 1)
  check a.bind_ok (complained (codes "bind") ∷ []) (pos 1)
  act (bound fd (local socket_path))
  act (listened fd n)
  pure fd

-- Ended by an exception, or with a status, or by ctrl-C: with the names that execl gave to the
-- children, and what was done.
pub data Run : Type 0 where
  threw : Run
  failed : ℤ → Run
  ran : List (List ℕ) → List Effect → Run

-- The first n values, from i on.
abbrev pub tabulate {ℓ} : {A : Type ℓ} → ℕ → ℕ → (ℕ → A) → List A
tabulate i zero f = []
tabulate i (suc n) f = f i ∷ tabulate (suc i) n f

-- fork's and accept's answers by the number of the interface, and the rounds of select.
pub record World : Type 0 where
  pub answers : Answers
  pub pids : ℕ → ℤ
  pub arrivals : ℕ → Arrival
  pub rounds : List (Option (List Readiness))

run_from : World → List (List ℕ) → Result ℕ → Run
run_from w names (exits status) = failed status
run_from w names (ok fd) =
    let n = length names in
    ran names (session fd (tabulate 0 n w.pids) (tabulate 0 n w.arrivals) w.rounds)

main_with : World → Option (List (List ℕ)) → List Act × Run
main_with w none = ([], threw)
main_with w (some names) = let (es, r) = start (length names) w.answers in (es, run_from w names r)

unfoldable pub main : World → ℤ → Cin → List Act × Run
unfolding main_with run_from
main w junk c = main_with w (prompts junk c)
