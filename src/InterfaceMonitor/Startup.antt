-- ===== src/InterfaceMonitor/Startup.antt =====
-- assignment2/src/intfMonitor.cpp: main from its first line on, and what a round of monitor_interface
-- reads and shows. The files are a function from paths to what they hold.
use unx511_unix_systems_prog.Prelude.{
  ℕ, zero, suc, Bool, Option, none, some, List, [], ◌∷◌, ◌++◌, ◌==◌, if◌then◌else◌,
}
use unx511_unix_systems_prog.Prelude.Int.{ℤ, pos}
use unx511_unix_systems_prog.Prelude.Bytes.{codes}
use unx511_unix_systems_prog.Prelude.Setup.{
  Act, local, connected, slept, complained, Setup, Result, ok, exits, ◌>>=◌, pure, or_exit,
  open_or_exit,
}
use unx511_unix_systems_prog.NetworkMonitor.Startup.{socket_path}
use unx511_unix_systems_prog.InterfaceMonitor.{Pc, Effect, Event, ticks, session}

abbrev pub Files : Type 0
Files = List ℕ → Option (List ℕ)

unfoldable pub until_newline : List ℕ → List ℕ
until_newline [] = []
until_newline (c ∷ s) = if c == 10 then [] else c ∷ until_newline s

-- read_file: the first line; nothing, if there is no such file.
unfoldable pub read_file : Option (List ℕ) → List ℕ
unfolding until_newline
read_file none = []
read_file (some s) = until_newline s

-- A file under "/sys/class/net/" + interface_name + "/".
unfoldable pub base : List ℕ → List ℕ → List ℕ
base name file = codes "/sys/class/net/" ++ (name ++ (47 ∷ file))

abbrev statistic : Files → List ℕ → List ℕ → List ℕ
statistic files name file = read_file (files (base name file))

unfoldable pub operstate : Files → List ℕ → List ℕ
operstate files name = statistic files name (codes "operstate")

-- One item of the display, before what follows it.
abbrev field : List ℕ → List ℕ → List ℕ → List ℕ
field label value rest = label ++ (value ++ rest)

-- What is shown in a round.
unfoldable pub report : Files → List ℕ → List ℕ
report files name =
    let f = λ (file : List ℕ). statistic files name file in
    field (codes "Interface: ") name (
      field (codes " state:") (operstate files name) (
        field (codes " up_count:") (f (codes "carrier_up_count")) (
          field (codes " down_count:") (f (codes "carrier_down_count")) (
            10
            ∷ field (codes "rx_bytes:") (f (codes "statistics/rx_bytes")) (
                field (codes " rx_dropped:") (f (codes "statistics/rx_dropped")) (
                  field (codes " rx_errors:") (f (codes "statistics/rx_errors")) (
                    field (codes " rx_packets:") (f (codes "statistics/rx_packets")) (
                      10
                      ∷ (field (codes "tx_bytes:") (f (codes "statistics/tx_bytes")) (
                          field (codes " tx_dropped:") (f (codes "statistics/tx_dropped")) (
                            field (codes " tx_errors:") (f (codes "statistics/tx_errors")) (
                              field (codes " tx_packets:") (f (codes "statistics/tx_packets"))
                                (10 ∷ ([]))))))))))))))

-- A round's event for `step`.
unfoldable pub round : Files → List ℕ → Event
round files name = ticks (operstate files name)

-- connect again and again, with a second's sleep after each failure; from attempt k on. `none` means that
-- the fuel ran out.
unfoldable pub connect_loop : ℕ → ℕ → (ℕ → Bool) → ℕ → Option (List Act)
connect_loop zero k connects fd = none
connect_loop (suc f) k connects fd =
    let again = connect_loop f (suc k) connects fd in
    if connects k
    then some (connected fd (local socket_path) ∷ [])
    else elim again [ none ↦ none | some es ↦ some (slept ∷ es) ]

-- argv[1], and socket's answer.
pub record Answers : Type 0 where
  pub argument : Option (List ℕ)
  pub socket : Option ℕ

-- The interface's name and the socket.
unfoldable pub start : Answers → Setup (List ℕ × ℕ)
start a = do
  name ← or_exit a.argument (complained (codes "Usage") ∷ []) (pos 1)
  fd ← open_or_exit a.socket (complained (codes "socket") ∷ []) (pos 1)
  pure (name, fd)

pub data Run : Type 0 where
  failed : ℤ → Run
  ran : List Act → Pc → List Effect → Run

connected_run : List Event → Option (List Act) → Option Run
connected_run es none = none
connected_run es (some acts) = let (p, fs) = session es in some (ran acts p fs)

run_from : ℕ → (ℕ → Bool) → List Event → Result (List ℕ × ℕ) → Option Run
run_from f connects es (exits status) = some (failed status)
run_from f connects es (ok (name, fd)) = connected_run es (connect_loop f 0 connects fd)

-- main, with the events of its session.
unfoldable pub main : ℕ → Answers → (ℕ → Bool) → List Event → Option Run
unfolding run_from connected_run
main f a connects es = run_from f connects es (start a).1
