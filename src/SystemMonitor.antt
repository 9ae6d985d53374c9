-- ===== src/SystemMonitor.antt =====
-- Lab5b/sysmonExec.cpp and intfMonitor.cpp: a parent that starts one monitor for each of two
-- interfaces, signals them to start and to stop, and waits for them. The files under /sys are a function
-- from paths to what they hold. The processes take steps in any order; fork succeeds.
mod Files
mod Processes
mod Examples
use unx511_unix_systems_prog.Prelude.{
  ℕ, suc, Bool, true, false, Option, none, some, List, [], ◌∷◌, ◌++◌, if◌then◌else◌, take,
}
use unx511_unix_systems_prog.Prelude.Int.{ℤ, pos}
use unx511_unix_systems_prog.Prelude.Bytes.{codes, show_int}
use unx511_unix_systems_prog.Prelude.Input.{input, read_int}

-- MAXBUF.
abbrev pub max_buf : ℕ
max_buf = 128

-- The files that can be opened, with what they hold.
abbrev pub Files : Type 0
Files = List ℕ → Option (List ℕ)

pub record Stats : Type 0 where
  pub tx_bytes : ℤ
  pub rx_bytes : ℤ
  pub tx_packets : ℤ
  pub rx_packets : ℤ

-- "/sys/class/net/%s/statistics/..."
pub stat_path : List ℕ → List ℕ → List ℕ
stat_path interface stat = codes "/sys/class/net/" ++ (interface ++ (codes "/statistics/" ++ stat))

-- `infile >> n` for an `n` that is zero; a file that cannot be opened leaves it so.
read_open : Option (List ℕ) → ℤ
read_open none = pos 0
read_open (some s) = (read_int (pos 0) (input s)).0

-- The four statistics of an interface.
pub gather : Files → List ℕ → Stats
gather files interface = record {
  tx_bytes = read_open (files (stat_path interface (codes "tx_bytes")));
  rx_bytes = read_open (files (stat_path interface (codes "rx_bytes")));
  tx_packets = read_open (files (stat_path interface (codes "tx_packets")));
  rx_packets = read_open (files (stat_path interface (codes "rx_packets")));
}

-- "%s: tx_bytes:%d rx_bytes:%d tx_packets:%d rx_packets: %d\n"
pub data_line : List ℕ → Stats → List ℕ
data_line interface s =
    interface
    ++ (codes ": tx_bytes:"
        ++ (show_int s.tx_bytes
            ++ (codes " rx_bytes:"
                ++ (show_int s.rx_bytes
                    ++ (codes " tx_packets:"
                        ++ (show_int s.tx_packets
                            ++ (codes " rx_packets: " ++ (show_int s.rx_packets ++ (10 ∷ [])))))))))

-- The loop, over the files of its rounds: the lines written. Nothing in it changes isRunning.
pub monitor_loop : Bool → List ℕ → List Files → List (List ℕ)
monitor_loop is_running interface [] = []
monitor_loop is_running interface (files ∷ rounds) =
    if is_running
    then data_line interface (gather files interface) ∷ monitor_loop is_running interface rounds
    else []

-- The monitor's main: strncpy of its argument, then the loop, with isRunning as it was declared.
pub monitor_main : List ℕ → List Files → List (List ℕ)
monitor_main argument rounds = monitor_loop false (take max_buf argument) rounds

-- intf.
pub data Intf : Type 0 where
  lo ens33 : Intf

pub intf_name : Intf → List ℕ
intf_name lo = codes "lo"
intf_name ens33 = codes "ens33"

-- SIGUSR1 and SIGUSR2, by number.
abbrev pub sigusr1 : ℕ
sigusr1 = 10

abbrev pub sigusr2 : ℕ
sigusr2 = 12

-- A child that runs, one that has ended with a status that nobody has asked for, and one that is gone.
pub data Child : Type 0 where
  running reaped : Child
  zombie : ℕ → Child

-- The parent in sleep(10), in sleep(30), in its loop of waits, and at its end.
pub data Parent : Type 0 where
  initializes records waits finished : Parent

pub record System : Type 0 where
  pub parent : Parent
  pub lo_child : Child
  pub ens33_child : Child
  pub network_log : List (List ℕ)
  pub reports : List (Intf × ℕ)

-- A signal that the child has no handler for ends it; a zombie takes no notice.
pub kill : ℕ → Child → Child
kill signal running = zombie signal
kill signal (zombie status) = zombie status
kill signal reaped = reaped

kill_all : ℕ → System → System
kill_all signal s = record s {
  lo_child = kill signal s.lo_child;
  ens33_child = kill signal s.ens33_child;
}

child_of : Intf → System → Child
child_of lo s = s.lo_child
child_of ens33 s = s.ens33_child

set_child : Intf → Child → System → System
set_child lo c s = record s { lo_child = c }
set_child ens33 c s = record s { ens33_child = c }

-- Child i runs to its end, with status 0: as intfMonitor, or past an execlp that failed.
end_child : Intf → Bool → List Files → Child → System → System
end_child i execs rounds running s =
    let lines = if execs then monitor_main (intf_name i) rounds else [] in
    set_child i (zombie 0) (record s { network_log = s.network_log ++ lines })
end_child i execs rounds (zombie status) s = s
end_child i execs rounds reaped s = s

-- wait returns child i.
reap : Intf → Parent → Child → System → System
reap i waits (zombie status) s =
    set_child i reaped (record s { reports = s.reports ++ ((i, status) ∷ []) })
reap i p c s = s

-- wait fails once there is no child.
wait_over : Child → Child → System → System
wait_over reaped reaped s = record s { parent = finished }
wait_over c d s = s

parent_moves_at : Parent → System → System
parent_moves_at initializes s = record (kill_all sigusr1 s) { parent = records }
parent_moves_at records s = record (kill_all sigusr2 s) { parent = waits }
parent_moves_at waits s = wait_over s.lo_child s.ens33_child s
parent_moves_at finished s = s

pub data Event : Type 0 where
  child_ends : Intf → Bool → List Files → Event
  parent_moves : Event
  parent_reaps : Intf → Event

pub step : Event → System → System
step (child_ends i execs rounds) s = end_child i execs rounds (child_of i s) s
step parent_moves s = parent_moves_at s.parent s
step (parent_reaps i) s = reap i s.parent (child_of i s) s

pub run : List Event → System → System
run [] s = s
run (e ∷ es) s = run es (step e s)

-- After the two forks.
abbrev pub forked : System
forked = record {
  parent = initializes;
  lo_child = running;
  ens33_child = running;
  network_log = [];
  reports = [];
}
