-- ===== src/NetworkMonitor/Serving.antt =====
-- assignment2/src/networkMonitor.cpp: a whole run, from the names that are typed.
use unx511_unix_systems_prog.Prelude.{
  ℕ, ◌<◌, ◌^◌, true, some, List, [], ◌∷◌, ◌++◌, length, All, ◌≡◌, refl,
}
use unx511_unix_systems_prog.Prelude.Int.{ℤ}
use unx511_unix_systems_prog.Prelude.Bytes.{show_nat}
use unx511_unix_systems_prog.Prelude.Input.{input}
use unx511_unix_systems_prog.Prelude.Typed.{NoSpace, read_word_line, read_int_line}
use unx511_unix_systems_prog.NetworkMonitor.{Effect, session}
use unx511_unix_systems_prog.NetworkMonitor.Cleanup.{
  signalled, closes, accepted, session_gives_back,
}
use unx511_unix_systems_prog.NetworkMonitor.Startup.{
  prompt_names, prompts, start, ran, tabulate, World, main,
}

-- Each name on a line.
abbrev pub lines : List (List ℕ) → List ℕ
lines [] = []
lines (w ∷ ws) = w ++ (10 ∷ lines ws)

abbrev pub IsName : List ℕ → Type 0
IsName [] = ⊥
IsName (c ∷ w) = NoSpace (c ∷ w)

names_lem :
    (names : List (List ℕ))
    → All IsName names
    → prompt_names (length names) (input (10 ∷ lines names)) ≡ names
unfolding prompt_names
names_lem [] h = refl
names_lem ([] ∷ names) h = absurd h.0
names_lem ((c ∷ w) ∷ names) h =
    rw (read_word_line [] c w (lines names) h.0, names_lem names h.1) refl

-- What is typed: the number of names, and the names.
abbrev pub typed : List (List ℕ) → List ℕ
typed names = show_nat (length names) ++ (10 ∷ lines names)

prompts-typed :
    (junk : ℤ) (names : List (List ℕ))
    → All IsName names
    → length names < 2 ^ 31
    → prompts junk (input (typed names)) ≡ some names
unfolding prompts
prompts-typed junk names h l =
    rw (read_int_line junk (length names) (lines names) l, names_lem names h) refl

-- When the number of the interfaces and their names are typed, each on a line, the socket is there and no
-- client has gone before the shutdown writes to it:
-- the children get the names as they were typed, and when ctrl-C has ended the program, SIGINT has
-- gone to what fork returned for each of them and just the accepted descriptors and the socket
-- have been closed.
pub main_gives_back :
    (w : World) (junk : ℤ) (names : List (List ℕ)) (fd : ℕ)
    → All IsName names
    → length names < 2 ^ 31
    → w.answers.socket ≡ some fd
    → w.answers.bind_ok ≡ true
    → (es : List Effect) × ((main w junk (input (typed names))).1 ≡ ran names es)
      × (signalled es ≡ tabulate 0 (length names) w.pids)
      × (closes es ≡ accepted (tabulate 0 (length names) w.arrivals) ++ (fd ∷ []))
unfolding main start
main_gives_back w junk names fd h l s b =
    let n = length names in
    let (signals, closing) =
      session_gives_back fd (tabulate 0 n w.pids) (tabulate 0 n w.arrivals) w.rounds in
    (
      session fd (tabulate 0 n w.pids) (tabulate 0 n w.arrivals) w.rounds,
      rw (prompts-typed junk names h l, s, b) refl,
      signals,
      closing,
    )
