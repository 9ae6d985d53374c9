-- ===== src/HardwareDevice/UserApp.antt =====
-- Lab5/userapp/userHardware.cpp: what the nine reads of the user's program give.
use unx511_unix_systems_prog.Prelude.{
  ℕ, false, true, List, [], ◌∷◌, length, replicate, ◌≡◌, refl, arith, ap, take_self,
}
use mathlib.Core.List.{append-nil}
use unx511_unix_systems_prog.Prelude.Int.{pos, negsuc}
use unx511_unix_systems_prog.HardwareDevice.{
  Device, buf_len, hardware_device_read, hardware_device_ioctl, user_reads,
}
use unx511_unix_systems_prog.HardwareDevice.Program.{read_times, user_main}

reads_at_end : (ds : List Device) → user_reads buf_len ds ≡ (replicate (length ds) (pos 0), [])
unfolding user_reads hardware_device_read
reads_at_end [] = refl
reads_at_end (d ∷ ds) = rw (reads_at_end ds)

first_read :
    (d : Device)
    → length d.buffer ≡ buf_len
    → hardware_device_read d buf_len 0 true ≡ (pos buf_len, d.buffer, buf_len)
unfolding hardware_device_read
first_read d h = ap (λ b. (pos buf_len, b, buf_len)) (take_self buf_len d.buffer (omega arith))

-- The first read on a newly opened file takes the whole buffer. All later reads on it return 0 and
-- bring nothing, whatever the buffer holds by then.
pub user_reads_once :
    (d : Device) (ds : List Device)
    → length d.buffer ≡ buf_len
    → user_reads 0 (d ∷ ds) ≡ (pos buf_len ∷ replicate (length ds) (pos 0), d.buffer)
unfolding user_reads
user_reads_once d ds h =
    rw (first_read d h, reads_at_end ds)
      (ap (λ b. (pos buf_len ∷ replicate (length ds) (pos 0), b)) (append-nil d.buffer))

-- The user's program on a device file that can be opened, whatever happens in its pauses: of its nine
-- reads the first one returns 16 and the others 0, it exits with 0, and the device has gone through
-- the pauses 0 to 2, the halt, the pauses 3 to 5, the resume and the pauses 6 to 8, in this order. If
-- the file cannot be opened, the program reads nothing, leaves the device alone and returns -1.
pub user_main_outcome :
    (pause : ℕ → Device → Device) (d : Device)
    → let halted = record (pause 2 (pause 1 (pause 0 d))) { is_halt = true } in
      let resumed = record (pause 5 (pause 4 (pause 3 halted))) { is_halt = false } in
      (user_main true pause d
        ≡ (pos 0, pos buf_len ∷ replicate 8 (pos 0), pause 8 (pause 7 (pause 6 resumed))))
      × (user_main false pause d ≡ (negsuc 0, [], d))
unfolding user_main read_times hardware_device_read hardware_device_ioctl
user_main_outcome pause d = (refl, refl)
