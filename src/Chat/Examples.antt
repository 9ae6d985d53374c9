-- ===== src/Chat/Examples.antt =====
-- Lab9: sessions of the server and moves of the client, and the theorems at them.
use unx511_unix_systems_prog.Prelude.{ℕ, All, length, ◌≤◌}
use unx511_unix_systems_prog.Prelude.Pipe.{collect}
use unx511_unix_systems_prog.Chat.{move}
use unx511_unix_systems_prog.Chat.Stream.{listed}
use unx511_unix_systems_prog.Chat.System
use unx511_unix_systems_prog.Chat.System.{
  client_moves, server_rounds, thread_reads, start, has_thread, client_does, server_does,
  thread_takes,
}
use unx511_unix_systems_prog.Chat.System.Bytes.{written, taken, texts, shown, run_bytes}
use unx511_unix_systems_prog.Prelude.{
  true, none, some, List, [], ◌∷◌, ◌++◌, ◌≡◌, refl, arith, replicate,
}
use unx511_unix_systems_prog.Prelude.Bytes.{codes}
use unx511_unix_systems_prog.Chat.{
  initial, connected, message, Event, rounds, reads, interrupted, run, session, step, main_round,
  accept_client, sets_running, receives, tests, writes, Client, client, moves,
}
use unx511_unix_systems_prog.Chat.Connections.{told, session_takes_leave}
use unx511_unix_systems_prog.Chat.Start.{quits_or_deaf}
use unx511_unix_systems_prog.Prelude.{false}
use unx511_unix_systems_prog.Prelude.Int.{negsuc}
use unx511_unix_systems_prog.Prelude.Bytes.{scan_int, scan_sign, scan_nat, scan_digits}
use unx511_unix_systems_prog.Prelude.Setup
use unx511_unix_systems_prog.Prelude.Setup.{opens, closes, ok, exits, atoi, port_of}
use unx511_unix_systems_prog.Chat.Startup.{ClientAnswers, client_start, loopback}

abbrev history : List Event
history =
    rounds (some 4)
    ∷ reads (some (codes "one"))
    ∷ rounds none
    ∷ rounds (some 5)
    ∷ reads none
    ∷ rounds (some 6)
    ∷ reads (some (codes "two"))
    ∷ rounds (some 7)
    ∷ interrupted
    ∷ reads (some (codes "three"))
    ∷ rounds (some 8)
    ∷ []

history_runs :
    (run history initial).1
    ≡ connected 4 ∷ message (codes "one") ∷ connected 5 ∷ connected 6 ∷ message (codes "two") ∷ []
unfolding run step main_round accept_client
history_runs = refl

session_takes_leave_example : told (session history) ≡ 4 ∷ 5 ∷ 6 ∷ []
session_takes_leave_example = (session_takes_leave history).2

-- main has made its test when the "Quit" comes.
abbrev at_write : Client
at_write = record (client (replicate 4096 0)) { is_running = true; started = true; writing = true }

quits_or_deaf_example :
    length
      (moves
        (receives (some (codes "Quit" ++ (0 ∷ []))) ∷ writes (codes "hi") ∷ tests ∷ [])
        at_write).1
    ≤ 1
quits_or_deaf_example =
    (quits_or_deaf at_write [] (writes (codes "hi") ∷ tests ∷ []) none refl refl refl
      (omega arith)).0

-- Nobody listens.
abbrev refused : ClientAnswers
refused = record {
  argument = some (codes "5000");
  socket = some 3;
  connect_ok = false;
  thread_ok = true;
}

refused_start :
    client_start refused
    ≡ (Setup.opened 3 ∷ Setup.complained (codes "connect") ∷ Setup.closed 3 ∷ [], exits (negsuc 0))
unfolding client_start
refused_start = refl

accepted_start :
    (client_start (record refused { connect_ok = true })).0
    ≡ Setup.opened 3 ∷ Setup.connected 3 (Setup.internet 5000 loopback) ∷ Setup.started_thread ∷ []
unfolding client_start atoi port_of scan_int scan_sign scan_nat scan_digits
accepted_start = refl

-- The client on connection 4 writes once; its thread reads that in two parts.
abbrev talking : List System.Event
talking =
    client_moves 4 sets_running
    ∷ client_moves 4 tests
    ∷ client_moves 4 (writes (codes "hello"))
    ∷ server_rounds (some 4)
    ∷ thread_reads 4 3
    ∷ thread_reads 4 9
    ∷ server_rounds none
    ∷ []

abbrev empty_buffers : ℕ → List ℕ
empty_buffers fd = []

shown_in_parts :
    collect shown (System.run listed talking (start listed empty_buffers)).1
    ≡ codes "hel" ∷ codes "lo" ∷ []
unfolding System.run System.step client_does server_does thread_takes has_thread move step
    main_round accept_client
shown_in_parts = refl

run_bytes_example :
    let (s, acts) = System.run listed talking (start listed empty_buffers) in
    (collect (taken 4) acts ++ s.streams 4 ≡ collect (written 4) acts)
    × (collect shown acts ++ s.server.message_queue ≡ collect texts acts)
    × All (λ t. length t ≤ 4096) (collect texts acts)
run_bytes_example = run_bytes listed empty_buffers talking 4
