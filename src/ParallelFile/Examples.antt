-- ===== src/ParallelFile/Examples.antt =====
-- assignment1/parallel_file: a worker's reads and a parent's wakeups, and the theorems at them.
use unx511_unix_systems_prog.Prelude.{◌≤◌, List, [], ◌∷◌, ◌≡◌, refl, arith, tally}
use unx511_unix_systems_prog.Prelude.Bytes.{codes, scan_int, scan_sign, scan_nat, scan_digits}
use unx511_unix_systems_prog.ParallelFile.{
  sigusr1, sigusr2, Round, memory_kb, worker_loop, worker_process, waiting, Wakeup, count_exit,
  signalled, exited, wait_all,
}
use unx511_unix_systems_prog.ParallelFile.Worker.{worker_outcome}
use unx511_unix_systems_prog.ParallelFile.Together.{
  wakeups, Interleaved, done, from_first, from_second, parent_leaves_workers,
}
use unx511_unix_systems_prog.Prelude.{true, false, ◌++◌}
use unx511_unix_systems_prog.Prelude.Bytes.{show_nat}
use unx511_unix_systems_prog.ParallelFile.Events.{Handling, full_text}

abbrev reads : List Round
reads =
    record { bytes = 1 ∷ 2 ∷ []; status = codes "Name: worker" ∷ codes "VmRSS:   40000 kB" ∷ [] }
    ∷ record { bytes = 3 ∷ []; status = codes "VmRSS:   50001 kB" ∷ [] }
    ∷ []

worker_runs : (worker_process reads).1 ≡ sigusr1 ∷ sigusr2 ∷ []
unfolding worker_process worker_loop memory_kb scan_int scan_sign scan_nat scan_digits
worker_runs = refl

worker_outcome_example : (worker_process reads).0 ≡ 1 ∷ 2 ∷ 3 ∷ []
worker_outcome_example = (worker_outcome reads).1 (omega arith)

-- The first worker reads the file, the others find theirs empty.
abbrev first_two : List Wakeup
first_two =
    signalled 1 sigusr1 ∷ signalled 2 sigusr2 ∷ signalled 1 sigusr2 ∷ exited 1 ∷ exited 2 ∷ []

abbrev all_three : List Wakeup
all_three =
    signalled 1 sigusr1
    ∷ signalled 3 sigusr2
    ∷ exited 3
    ∷ signalled 2 sigusr2
    ∷ signalled 1 sigusr2
    ∷ exited 1
    ∷ exited 2
    ∷ []

first_two-Interleaved : Interleaved (wakeups 1 reads) (wakeups 2 []) first_two
unfolding wakeups worker_process worker_loop memory_kb scan_int scan_sign scan_nat scan_digits
first_two-Interleaved = from_first (from_second (from_first (from_first (from_second done))))

all_three-Interleaved : Interleaved first_two (wakeups 3 []) all_three
unfolding wakeups worker_process worker_loop
all_three-Interleaved =
    from_first (from_second (from_second (from_first (from_first (from_first (from_first done))))))

parent_leaves_workers_example :
    ((wait_all all_three waiting).waits_left ≡ 0)
    × ((wait_all all_three waiting).reaped ≤ 1)
    × (tally count_exit all_three ≡ 3)
parent_leaves_workers_example =
    parent_leaves_workers 1 2 3 reads [] [] first_two all_three first_two-Interleaved
      all_three-Interleaved

-- A worker's end is handled inside the handler of its first signal; another process holds the lock when
-- the last signal comes.
abbrev handled : List Handling
handled =
    record {
      signal = sigusr1;
      worker = 4001;
      answers = record { open_ok = true; lock_ok = true };
      within = (4002, record { open_ok = true; lock_ok = true }) ∷ [];
    }
    ∷ record {
      signal = sigusr2;
      worker = 4001;
      answers = record { open_ok = true; lock_ok = false };
      within = [];
    }
    ∷ []

last_text :
    full_text sigusr2 4002 ≡ 226 ∷ 156 ∷ 133 ∷ codes " Worker 4002 completed its task" ++ (10 ∷ [])
unfolding full_text show_nat
last_text = refl
