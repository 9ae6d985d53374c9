-- ===== src/LogServer/Examples.antt =====
-- Assignment3/server/LogServer.cpp: runs of the server, and its theorems at them.
use unx511_unix_systems_prog.Prelude.Setup.{atoi}
use unx511_unix_systems_prog.Prelude.{All}
use unx511_unix_systems_prog.Prelude.{
  ℕ, none, Memᴰ, true, false, some, List, [], ◌∷◌, ◌++◌, ◌≡◌, refl, arith,
}
use unx511_unix_systems_prog.Prelude.Int.{pos}
use unx511_unix_systems_prog.Prelude.Bytes.{
  codes, scan_digits, scan_nat, scan_sign, scan_int, scan_stream,
}
use unx511_unix_systems_prog.Logger
use unx511_unix_systems_prog.Logger.{Logger, LogLevel, level_value}
use unx511_unix_systems_prog.LogServer.{
  Effect, sent, dumped, initial, command, send_level, select, flush_line, set_level, drop_char,
  menu_loop, bytes, would_block,
}
use unx511_unix_systems_prog.LogServer.Replies.{Event, receives, replies}
use unx511_unix_systems_prog.Logger.{Entry, log, log_line, datagram}
use unx511_unix_systems_prog.LogServer.{rx_round}
use unx511_unix_systems_prog.LogServer.Commands.{rx_round-command}
use unx511_unix_systems_prog.Prelude.Setup.{
  opened, closed, set_nonblocking, reused_address, bound, internet, started_thread, ok,
}
use unx511_unix_systems_prog.LogServer.Startup.{
  Answers, start, main, stopped, joining, served, chosen_port, chosen_address,
}
use unx511_unix_systems_prog.LogServer.Shutdown.{
  Typed, blank, other, dump, IsTyped, all_typed, main_shuts_down,
}
use unx511_unix_systems_prog.LogServer.Ports.{ports_agree}
use unx511_unix_systems_prog.LogServer
use unx511_unix_systems_prog.LogServer.Receiver
use unx511_unix_systems_prog.LogServer.Receiver.{rx_thread_func, unopened, rx_thread_func_outcome}

abbrev history : List Event
history =
    receives (bytes (codes "one") 7 16)
    ∷ receives would_block
    ∷ replies (pos 1)
    ∷ receives (bytes (codes "two") 9 16)
    ∷ []

-- A 2 and a line to go on, then a 1 with a level, then a 0.
abbrev input : List ℕ
input = codes "2" ++ (10 ∷ 10 ∷ codes "1" ++ (10 ∷ codes "3" ++ (10 ∷ codes "0" ++ (10 ∷ []))))

menu_runs :
    menu_loop 20 input initial
    ≡ some (record initial { is_running = false }, dumped [] ∷ sent (command (pos 3)) 0 ∷ [])
unfolding menu_loop select set_level flush_line drop_char send_level initial scan_stream scan_int
    scan_sign scan_nat scan_digits
menu_runs = refl

abbrev client : Logger
client = record {
  fd = some 5;
  server = Logger.zero_address;
  is_running = true;
  filter = Logger.debug;
  rx_thread = true;
}

rx_round-command_example :
    level_value (Logger.rx_round (Logger.bytes (command (pos 2))) client).0.filter ≡ 2
rx_round-command_example = (rx_round-command (pos 2) client (omega arith)).2 2 refl (omega arith)

abbrev entry : Entry
entry = record {
  level = Logger.error;
  file = codes "a.cpp";
  func = codes "f";
  line = 12;
  message = some (codes "no gas");
}

-- Every call succeeds; the port comes from the environment, an address that cannot be read does not.
abbrev answers : Answers
answers = record {
  bind_ip = some (codes "localhost");
  bind_port = some (codes "6000");
  socket = some 3;
  getfl_ok = true;
  setfl_ok = true;
  inet_pton = λ s. none;
  bind_ok = true;
  thread_ok = true;
  open_ok = true;
}

start_runs : start answers ≡ (
  opened 3 ∷ set_nonblocking 3 ∷ reused_address 3 ∷ bound 3 (internet 6000 0) ∷ started_thread ∷ [],
  ok 3,
)
unfolding start chosen_port chosen_address scan_int scan_sign scan_nat scan_digits atoi
start_runs = refl

started : (start answers).1 ≡ ok 3
unfolding start
started = refl

-- Without a selection of 0 the menu ends with the input, and main waits for its thread.
main_runs : (main 9 answers (codes "2")).1 ≡ served (some ([], dumped [] ∷ [], joining))
unfolding main start menu_loop select flush_line drop_char initial
main_runs = refl

-- An empty line, the display with a key, a line that selects nothing.
abbrev session : List Typed
session = blank ∷ dump [] 10 ∷ other 120 (codes "y") ∷ []

session-IsTyped : All IsTyped session
session-IsTyped = (tt, (tt, (((λ e. cc), (λ e. cc), (λ e. cc), (λ e. cc), ((λ e. cc), tt)), tt)))

main_shuts_down_example :
    (shown : List Effect) × ((main 40 answers (all_typed session (48 ∷ 10 ∷ []))).1
      ≡ served (some (closed 3 ∷ [], shown, stopped)))
main_shuts_down_example =
    (main_shuts_down 40 3 answers session [] [] started session-IsTyped tt (omega arith)
      (omega arith)).0

abbrev client_answers : Logger.InitAnswers
client_answers = record {
  env_ip = none;
  env_port = some (codes "6000");
  socket = some 4;
  getfl_ok = true;
  setfl_ok = true;
  inet_pton = λ s. some 2130706433;
  thread_ok = true;
}

client_starts : (Logger.initialize_log client_answers Logger.initial).1 ≡ pos 0
unfolding Logger.initialize_log Logger.initial
client_starts = refl

ports_agree_example :
    Memᴰ
      (bound 3 (
        internet
          (Logger.initialize_log client_answers Logger.initial).0.server.sin_port
          (chosen_address (λ s. none) (some (codes "localhost")))))
      (start answers).0
unfolding Logger.initial
ports_agree_example =
    ports_agree answers 3 client_answers Logger.initial started refl client_starts refl

-- Two datagrams with a wait between them.
abbrev answered : List LogServer.Received
answered = bytes (codes "one") 7 16 ∷ would_block ∷ bytes (codes "two") 8 16 ∷ []

rx_thread_func_outcome_example :
    let (g, es, end) = rx_thread_func (some 4) answered initial in
    (g.log_file ≡ codes "onetwo")
    × (g.last_sender ≡ 8)
    × (end ≡ Receiver.closed 4)
    × (rx_thread_func none answered initial ≡ (initial, [], unopened))
rx_thread_func_outcome_example = rx_thread_func_outcome 4 answered initial
