-- ===== src/MessageServer/Examples.antt =====
-- Lab8: runs of the server and of a client, and the theorems at them.
use unx511_unix_systems_prog.Prelude.{All}
use unx511_unix_systems_prog.MessageServer.{next_dest, client_round}
use unx511_unix_systems_prog.MessageServer.System
use unx511_unix_systems_prog.MessageServer.System.{
  client_sends, client_receives, server_receives, server_sends, start, text_of, client_does,
  server_does, client_takes, server_takes,
}
use unx511_unix_systems_prog.MessageServer.Queue.{listed}
use unx511_unix_systems_prog.MessageServer.Clients.{IsClient}
use unx511_unix_systems_prog.MessageServer.System.Flows.{asked, printed}
use unx511_unix_systems_prog.Prelude.Pipe.{collect}
use unx511_unix_systems_prog.MessageServer.System.Typing.{IsTyped, IsMail}
use unx511_unix_systems_prog.MessageServer.System.Keeping.{OfClients}
use unx511_unix_systems_prog.MessageServer.System.Ordered.{mail_for, run_in_order, run-IsTyped}
use unx511_unix_systems_prog.MessageServer.System.Draining.{run_delivers}
use unx511_unix_systems_prog.Prelude.{ℕ, some, List, [], ◌∷◌, ◌++◌, ◌≡◌, refl, arith}
use unx511_unix_systems_prog.Prelude.Bytes.{codes}
use unx511_unix_systems_prog.MessageServer.{
  Message, initial, Event, receives, sends, interrupted, step, run, recv_round, take_front,
  main_round, client,
}
use unx511_unix_systems_prog.MessageServer.Dispatch.{redirect}
use unx511_unix_systems_prog.MessageServer.Delivery.{of_type}
use unx511_unix_systems_prog.MessageServer.Clients
use unx511_unix_systems_prog.MessageServer.Clients.{
  Alternates, kept, run-Alternates, run_prints, failed_receives,
}

abbrev message : ℕ → ℕ → Message
message source dest = record { mtype = 4; source = source; dest = dest; buf = codes "hello" }

abbrev history : List Event
history =
    receives (some (message 1 2)) ∷ receives (some (message 3 1)) ∷ sends ∷ sends ∷ interrupted ∷ []

sends_on : (run history initial).1 ≡ redirect (message 1 2) ∷ redirect (message 3 1) ∷ []
unfolding run step recv_round main_round take_front
sends_on = refl

abbrev turns : List Clients.Event
turns =
    Clients.rounds (codes "a") ∷ Clients.receives (message 3 1) ∷ Clients.rounds (codes "b") ∷ []

run-Alternates_example : Alternates 1 0 (Clients.run turns (client 1)).2
run-Alternates_example = run-Alternates turns (client 1) 1 0 (omega arith) refl refl

run_prints_example :
    (Clients.run turns (client 1)).1 ++ (Clients.run turns (client 1)).0.queue ≡ message 3 1 ∷ []
run_prints_example = run_prints turns (client 1)

-- Client 1 writes to client 2 and client 3 to client 1; the server takes both and sends on the first.
abbrev rounds : List System.Event
rounds =
    client_sends 1 100
    ∷ client_sends 3 300
    ∷ server_receives
    ∷ server_receives
    ∷ server_sends
    ∷ client_receives 2
    ∷ []

run_in_order_example :
    let (s, acts) = System.run listed rounds (start listed) in
    collect (printed 2) acts
      ++ ((s.clients 2).queue
          ++ (of_type 2 s.queue ++ mail_for 2 (s.server.message_queue ++ of_type 4 s.queue)))
    ≡ mail_for 2 (collect asked acts)
run_in_order_example = run_in_order listed rounds 2 (omega arith) (omega arith)

run-IsTyped_example :
    let (s, acts) = System.run listed rounds (start listed) in
    IsTyped listed s × ((t : ℕ) → IsClient t → All (IsMail t) (collect (printed t) acts))
run-IsTyped_example = run-IsTyped listed rounds (omega arith)

run_delivers_example :
    (zs : List System.Event) × All OfClients zs
    × (collect (printed 2) (System.run listed (rounds ++ zs) (start listed)).1
        ≡ mail_for 2 (collect asked (System.run listed rounds (start listed)).1))
run_delivers_example = run_delivers listed rounds 2 200 (omega arith) (omega arith)

one_letter :
    mail_for 2 (collect asked (System.run listed rounds (start listed)).1)
    ≡ record { mtype = 2; source = 1; dest = 2; buf = text_of 1 100 } ∷ []
unfolding System.run System.step client_does server_does client_takes server_takes step Clients.step
    client_round next_dest recv_round main_round take_front
one_letter = refl
