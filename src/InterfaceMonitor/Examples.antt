-- ===== src/InterfaceMonitor/Examples.antt =====
-- assignment2/src/intfMonitor.cpp: a run of an interface monitor, and its theorems at it.
use unx511_unix_systems_prog.Prelude.{some, leb, All, ◌≢◌, ◌++◌, arith, [], ◌∷◌, ◌≡◌, refl, tally}
use unx511_unix_systems_prog.Prelude.Bytes.{codes}
use unx511_unix_systems_prog.NetworkMonitor.{monitor, link_down, set_link_up}
use unx511_unix_systems_prog.NetworkMonitor
use unx511_unix_systems_prog.NetworkMonitor.{shake_hands, said_started, ready, monitoring}
use unx511_unix_systems_prog.Prelude.{replicate}
use unx511_unix_systems_prog.InterfaceMonitor.Protocol.{handshake_outcome}
use unx511_unix_systems_prog.InterfaceMonitor.{
  reads, ticks, sigint, serving, set_up, run, session, serve, step,
}
use unx511_unix_systems_prog.InterfaceMonitor.Startup
use unx511_unix_systems_prog.InterfaceMonitor.Connecting.{main_connects}
use unx511_unix_systems_prog.NetworkMonitor.Startup.{socket_path}
use unx511_unix_systems_prog.Prelude.Setup.{slept, connected, local}
use unx511_unix_systems_prog.InterfaceMonitor.Reports.{sets_up, session_never_sets_up}

abbrev answers : Startup.Answers
answers = record { argument = some (codes "lo"); socket = some 3 }

abbrev files : Startup.Files
files path = some (codes "down" ++ (10 ∷ []))

down_line : All (λ c. c ≢ 10) (codes "down")
down_line = ((λ e. cc), ((λ e. cc), ((λ e. cc), ((λ e. cc), tt))))

sets_up_before : (run serving (reads (some set_link_up) ∷ [])).1 ≡ set_up ∷ []
unfolding run step serve
sets_up_before = refl

session_never_sets_up_example :
    tally sets_up
      (session
        (reads (some monitor) ∷ ticks (codes "down") ∷ reads (some set_link_up) ∷ sigint ∷ [])).1
    ≡ 0
session_never_sets_up_example =
    session_never_sets_up (ticks (codes "down") ∷ reads (some set_link_up) ∷ sigint ∷ [])

handshake_outcome_example :
    shake_hands 0 4 (replicate 128 0) ready monitoring
    ≡ NetworkMonitor.wrote 4 monitor ∷ said_started 1 ∷ []
handshake_outcome_example = (handshake_outcome 0 4 (replicate 128 0) refl).1 refl refl

-- Two attempts fail.
connecting :
    Startup.main 5 answers (leb 2) (reads (some monitor) ∷ [])
    ≡ some (
        Startup.ran
          (slept ∷ slept ∷ connected 3 (local socket_path) ∷ [])
          (session (reads (some monitor) ∷ [])).0
          (session (reads (some monitor) ∷ [])).1)
connecting =
    main_connects 5 2 3 answers (codes "lo") (leb 2) (reads (some monitor) ∷ []) refl refl
      (λ i l. ground arith) refl (omega arith)
