-- ===== src/ParallelFile.antt =====
-- assignment1/parallel_file: a parent writes three files, three worker processes read one each, watch
-- their own memory and signal the parent, which logs the signals. What read and /proc/self/status give
-- is an argument; opening files and malloc succeed.
mod Worker
mod Waiting
mod Together
mod Events
mod Logged
mod Examples
use unx511_unix_systems_prog.Prelude.{
  ℕ, zero, suc, ◌+◌, ◌*◌, Bool, true, false, Option, none, some, List, [], ◌∷◌, ◌++◌, ltb,
  if◌then◌else◌, length, drop,
}
use unx511_unix_systems_prog.Prelude.Int.{ℤ, pos, negsuc}
use unx511_unix_systems_prog.Prelude.Bytes.{codes, has_prefix, scan_int}

abbrev pub megabyte : ℕ
megabyte = 1024 * 1024

abbrev pub accum_len : ℕ
accum_len = 60 * megabyte

-- ca_generate_binary_file: the file, for a size in megabytes that may be negative, and the bytes of
-- the buffer that rand has filled.
repeat : ℕ → List ℕ → List ℕ
repeat zero buffer = []
repeat (suc n) buffer = buffer ++ repeat n buffer

unfoldable pub generate_binary_file : ℤ → List ℕ → List ℕ
unfolding repeat
generate_binary_file (pos size_mb) buffer = repeat size_mb buffer
generate_binary_file (negsuc n) buffer = []

pub data Signal : Type 0 where
  sigusr1 sigusr2 : Signal

-- memcpy behind what is there, if it stays below the end of `accum`.
unfoldable pub accumulate : List ℕ → List ℕ → List ℕ
accumulate accum bytes =
    if ltb (length accum + length bytes) accum_len then accum ++ bytes else accum

number_or : ℤ → Option ℤ → ℤ
number_or z none = z
number_or z (some v) = v

-- mem_kb after the loop over the lines that fgets gives.
unfoldable pub memory_kb : List (List ℕ) → ℤ
unfolding number_or
memory_kb [] = pos 0
memory_kb (line ∷ lines) =
    if has_prefix (codes "VmRSS:") line
    then number_or (pos 0) (scan_int (drop 6 line))
    else memory_kb lines

abbrev pub exceeds : ℤ → Bool
exceeds (pos n) = ltb 50000 n
exceeds (negsuc n) = false

-- The bytes of one read, and the lines of the status file after it.
pub record Round : Type 0 where
  bytes : List ℕ
  status : List (List ℕ)

-- The reads up to the end of the file: what is accumulated, and the signals to the parent.
unfoldable pub worker_loop : List ℕ → List Round → List ℕ × List Signal
worker_loop accum [] = (accum, [])
worker_loop accum (r ∷ rs) =
    let (accum', signals) = worker_loop (accumulate accum r.bytes) rs in
    (accum', (if exceeds (memory_kb r.status) then sigusr1 ∷ [] else []) ++ signals)

unfoldable pub worker_process : List Round → List ℕ × List Signal
worker_process rs = let (accum, signals) = worker_loop [] rs in (accum, signals ++ (sigusr2 ∷ []))

-- The parent in main's last loop: the calls of wait that are left, and the workers that it has seen
-- end. The signal handlers are installed without SA_RESTART, so that a signal ends a wait.
pub record Parent : Type 0 where
  waits_left : ℕ
  reaped : ℕ

abbrev pub waiting : Parent
waiting = record { waits_left = 3; reaped = 0 }

-- What ends a wait: a signal from a worker, or a worker that exits.
pub data Wakeup : Type 0 where
  signalled : ℕ → Signal → Wakeup
  exited : ℕ → Wakeup

abbrev pub count_exit : Wakeup → ℕ
count_exit (signalled worker signal) = 0
count_exit (exited worker) = 1

wake : Wakeup → ℕ → Parent → Parent
wake w zero p = p
wake w (suc n) p = record { waits_left = n; reaped = p.reaped + count_exit w }

unfoldable pub wait_round : Wakeup → Parent → Parent
unfolding wake
wait_round w p = wake w p.waits_left p

unfoldable pub wait_all : List Wakeup → Parent → Parent
wait_all [] p = p
wait_all (w ∷ ws) p = wait_all ws (wait_round w p)
