-- ===== src/Session/Examples.antt =====
-- Lab6: a run of the dialogue, and the theorem at it.
use unx511_unix_systems_prog.Prelude.{[], ◌∷◌, ◌++◌, ◌≡◌, refl, arith}
use unx511_unix_systems_prog.Prelude.Bytes.{codes, show_nat, decimal_onto}
use unx511_unix_systems_prog.Session.{pid_text, run, connected, client_moves, server_moves}
use unx511_unix_systems_prog.Session.Dialogue.{round_robin, system, finished, dialogue_outcome}

pid_text_runs : pid_text 4021 ≡ codes "This client has pid 4021"
unfolding pid_text show_nat decimal_onto
pid_text_runs = refl

dialogue_outcome_example :
    run 4021 ((client_moves ∷ server_moves ∷ server_moves ∷ []) ++ round_robin 8) connected
    ≡ system 4021 finished
dialogue_outcome_example =
    (dialogue_outcome 4021 (client_moves ∷ server_moves ∷ server_moves ∷ []) (omega arith)).1
