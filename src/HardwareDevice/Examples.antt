-- ===== src/HardwareDevice/Examples.antt =====
-- Lab5: runs of the device, and its theorems at them.
use unx511_unix_systems_prog.Prelude.{ℕ, true, false, [], ◌∷◌, ◌≡◌, refl, arith}
use unx511_unix_systems_prog.Prelude.Int.{pos}
use unx511_unix_systems_prog.HardwareDevice.{
  Device, start, inner, halt, unknown, register_device, unregister_device, hardware_device_read,
  hardware_device_ioctl, einval, efault,
}
use unx511_unix_systems_prog.HardwareDevice.Thread.{
  runs, ioctl, run, letters, HasLetters, run-HasLetters, sim_steps, IsInside, unregister_outcome,
}
use unx511_unix_systems_prog.Prelude.{replicate, ◌++◌}
use unx511_unix_systems_prog.HardwareDevice.{buf_len, rotating, sim_step}
use unx511_unix_systems_prog.HardwareDevice.Program.{user_main}
use unx511_unix_systems_prog.HardwareDevice.UserApp.{user_main_outcome}

abbrev fresh : Device
fresh = record { major = 240; buffer = letters 97; is_running = true; is_halt = false }

registers :
    register_device (pos 240) (record fresh { major = 0; is_running = false }) ≡ (pos 0, fresh)
unfolding register_device
registers = refl

refuses_unknown : (hardware_device_ioctl unknown fresh).0 ≡ einval
unfolding hardware_device_ioctl
refuses_unknown = refl

run-HasLetters_example :
    HasLetters (run (runs ∷ runs ∷ runs ∷ ioctl halt ∷ runs ∷ []) (start, fresh))
run-HasLetters_example =
    run-HasLetters (runs ∷ runs ∷ runs ∷ ioctl halt ∷ runs ∷ []) (start, fresh)
      (97, omega arith, omega arith, refl)

-- Past its increment a z is no letter.
past_z :
    (sim_steps 2 (inner, record fresh { buffer = letters 122 })).1.buffer
    ≡ 123 ∷ replicate 14 122 ++ (0 ∷ [])
unfolding sim_steps sim_step
past_z = refl

unregister_outcome_example : IsInside (sim_steps 1000 (rotating 4, (unregister_device fresh).1)).0
unregister_outcome_example = (unregister_outcome 1000 (rotating 4) fresh tt).1

read_faults : hardware_device_read fresh 10 4 false ≡ (efault, [], 4)
unfolding hardware_device_read
read_faults = refl

-- In each pause the thread makes ten accesses.
abbrev pause : ℕ → Device → Device
pause k d = (sim_steps 10 (inner, d)).1

user_main_outcome_example : user_main true pause fresh ≡ (
  pos 0,
  pos buf_len ∷ replicate 8 (pos 0),
  pause 8 (
      pause 7 (
        pause 6
          (record (pause 5
            (pause 4 (pause 3 (record (pause 2 (pause 1 (pause 0 fresh))) { is_halt = true })))) {
              is_halt = false;
            }))),
)
user_main_outcome_example = (user_main_outcome pause fresh).0
