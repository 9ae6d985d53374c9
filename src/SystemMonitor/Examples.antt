-- ===== src/SystemMonitor/Examples.antt =====
-- Lab5b: schedules of the three processes and files to read, and the theorems at them.
use unx511_unix_systems_prog.Prelude.{
  true, List, [], ◌∷◌, ◌++◌, if◌then◌else◌, All, tally, ◌≡◌, ◌≢◌, refl,
}
use unx511_unix_systems_prog.Prelude.Bytes.{
  codes, bytes_eq, show_int, show_nat, scan_sign, scan_nat, scan_digits,
}
use unx511_unix_systems_prog.Prelude.Input.{read_int}
use unx511_unix_systems_prog.SystemMonitor.{
  Files, stat_path, gather, data_line, lo, ens33, running, initializes, finished, Event, child_ends,
  parent_moves, parent_reaps, step, run, forked, monitor_loop, parent_moves_at, reap, end_child,
  child_of, set_child, kill_all, kill, wait_over, read_open,
}
use unx511_unix_systems_prog.SystemMonitor.Processes.{IsEnd, about, run_records_nothing}
use unx511_unix_systems_prog.SystemMonitor.Files.{counter}

-- Only the bytes sent have passed the largest int.
abbrev files : Files
files path =
    if bytes_eq path (codes "/sys/class/net/lo/statistics/tx_bytes")
    then counter 5000000000
    else counter 1200

-- One monitor ends before the first signal, the other does not.
abbrev schedule : List Event
schedule =
    child_ends lo true (files ∷ [])
    ∷ parent_moves
    ∷ child_ends ens33 true (files ∷ [])
    ∷ parent_moves
    ∷ parent_reaps ens33
    ∷ parent_moves
    ∷ parent_reaps lo
    ∷ parent_moves
    ∷ []

run-schedule :
    ((run schedule forked).parent ≡ finished)
    × ((run schedule forked).reports ≡ (ens33, 10) ∷ (lo, 0) ∷ [])
unfolding run step parent_moves_at reap end_child child_of set_child kill_all kill wait_over
run-schedule = (refl, refl)

run_records_nothing_example :
    let s = run schedule forked in
    (s.network_log ≡ [])
    × All (λ r. IsEnd r.1) s.reports
    × (s.parent ≢ initializes → (s.lo_child ≢ running) × (s.ens33_child ≢ running))
    × (s.parent ≡ finished → (tally (about lo) s.reports ≡ 1) × (tally (about ens33) s.reports ≡ 1))
run_records_nothing_example = run_records_nothing schedule

files_counted :
    (files (stat_path (codes "lo") (codes "tx_bytes")) ≡ counter 5000000000)
    × (files (stat_path (codes "lo") (codes "rx_bytes")) ≡ counter 1200)
    × (files (stat_path (codes "lo") (codes "tx_packets")) ≡ counter 1200)
    × (files (stat_path (codes "lo") (codes "rx_packets")) ≡ counter 1200)
unfolding stat_path
files_counted = (refl, refl, refl, refl)

-- What the loop would write if the flag were set.
loop_line :
    monitor_loop true (codes "lo") (files ∷ [])
    ≡ (codes "lo: tx_bytes:2147483647 rx_bytes:1200 tx_packets:1200 rx_packets: 1200" ++ (10 ∷ []))
      ∷ []
unfolding monitor_loop data_line gather show_int show_nat read_open stat_path read_int scan_sign
    scan_nat scan_digits
loop_line = refl
