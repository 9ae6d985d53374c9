-- ===== src/HardwareDevice/Program.antt =====
-- Lab5/userapp/userHardware.cpp: the whole program, with what the device's thread does in the pauses,
-- and the module's entry points that call the operations.
use unx511_unix_systems_prog.Prelude.{ℕ, zero, suc, Bool, true, List, [], ◌∷◌, ◌++◌, if◌then◌else◌}
use unx511_unix_systems_prog.Prelude.Int.{ℤ, pos, negsuc}
use unx511_unix_systems_prog.HardwareDevice.{
  Device, buf_len, register_device, unregister_device, hardware_device_read, hardware_device_ioctl,
  halt, resume,
}

-- hardware_device_init and hardware_device_exit.
unfoldable pub hardware_device_init : ℤ → Device → ℤ × Device
hardware_device_init major d = register_device major d

unfoldable pub hardware_device_exit : Device → Bool × Device
hardware_device_exit d = unregister_device d

-- Three reads of BUF_LEN bytes, each followed by a pause, in which the device changes as `pause` says by
-- the number of the pause: the results, the next pause's number, the offset, the device.
unfoldable pub read_times : ℕ → (ℕ → Device → Device) → ℕ → ℕ → Device → List ℤ × ℕ × Device
read_times zero pause k off d = ([], off, d)
read_times (suc n) pause k off d =
    let (nbytes, bytes, off') = hardware_device_read d buf_len off true in
    let (results, off'', d') = read_times n pause (suc k) off' (pause k d) in
    (nbytes ∷ results, off'', d')

-- main, if the device file can be opened (`opens`): its status, the results of the reads, the device.
unfoldable pub user_main : Bool → (ℕ → Device → Device) → Device → ℤ × List ℤ × Device
user_main opens pause d =
    if opens
    then (let (r1, off1, d1) = read_times 3 pause 0 0 d in
        let (r2, off2, d2) = read_times 3 pause 3 off1 (hardware_device_ioctl halt d1).1 in
        let (r3, off3, d3) = read_times 3 pause 6 off2 (hardware_device_ioctl resume d2).1 in
        (pos 0, r1 ++ (r2 ++ r3), d3))
    else (negsuc 0, [], d)
