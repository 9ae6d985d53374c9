-- ===== src/Logger/Examples.antt =====
-- Assignment3/client/Logger.cpp: runs of the logger, and its theorems at them.
use unx511_unix_systems_prog.Prelude.Setup.{atoi}
use unx511_unix_systems_prog.Prelude.{
  true, false, none, some, List, [], ◌∷◌, ◌++◌, take, ◌≡◌, refl, tally,
}
use unx511_unix_systems_prog.Prelude.Int.{pos}
use unx511_unix_systems_prog.Prelude.Bytes.{
  codes, show_nat, scan_digits, scan_nat, scan_sign, scan_int, show_int,
}
use unx511_unix_systems_prog.Logger.Lifecycle.{
  Call, initializes, sets, logs, receives, exits, step, run, IsValid, initial-IsValid, run-IsValid,
  run_releases, opens, closes,
}
use unx511_unix_systems_prog.Logger.{
  Logger, InitAnswers, Entry, bytes, would_block, debug, warning, error, Effect, opened, initial,
  initialize_log, set_log_level, exit_log, log, rx_round, scan_command, log_line,
}

abbrev answers : InitAnswers
answers = record {
  env_ip = none;
  env_port = some (codes "6000");
  socket = some 5;
  getfl_ok = true;
  setfl_ok = true;
  inet_pton = λ s. some 2130706433;
  thread_ok = true;
}

abbrev entry : Entry
entry = record {
  level = error;
  file = codes "a.cpp";
  func = codes "f";
  line = 12;
  message = some (codes "no gas");
}

abbrev calls : List Call
calls =
    initializes answers
    ∷ sets warning
    ∷ logs (codes "now") entry
    ∷ receives would_block
    ∷ receives (bytes (codes "Set Log Level=3"))
    ∷ exits
    ∷ []

abbrev running : Logger
running = record {
  fd = some 5;
  server = record { sin_port = 6000; sin_addr = 2130706433 };
  is_running = true;
  filter = warning;
  rx_thread = true;
}

initialize_log_runs :
    initialize_log answers initial
    ≡ (record running { filter = debug }, pos 0, opened 5 ∷ Effect.thread_started ∷ [])
unfolding initialize_log initial scan_int scan_sign scan_nat scan_digits atoi
initialize_log_runs = refl

log_line_runs :
    log_line (codes "Mon" ++ (10 ∷ [])) entry ≡ codes "Mon ERROR a.cpp:f:12 no gas" ++ (10 ∷ [])
unfolding log_line show_int show_nat
log_line_runs = refl

run-IsValid_example : IsValid (run calls initial).0
run-IsValid_example = run-IsValid calls initial initial-IsValid

calls_stop : (run calls initial).0.is_running ≡ false
unfolding run step initialize_log initial set_log_level exit_log rx_round scan_command scan_int
    scan_sign scan_nat scan_digits
calls_stop = refl

run_releases_example :
    tally (opens 5) (run calls initial).1 ≡ tally (closes 5) (run calls initial).1
run_releases_example = (run_releases calls calls_stop).0 5

command_scans : scan_command (take 2047 (codes "Set Log Level=2") ++ (0 ∷ [])) ≡ some (pos 2)
unfolding scan_command scan_int scan_sign scan_nat scan_digits
command_scans = refl

-- Below the filter nothing is sent.
filters :
    log (codes "now") (record entry { level = debug }) (record running { filter = error }) ≡ []
unfolding log
filters = refl
