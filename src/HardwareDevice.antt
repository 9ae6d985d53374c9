-- ===== src/HardwareDevice.antt =====
-- Lab5/kernel/hardwareDevice.c and hardwareDevice.h, and Lab5/userapp/userHardware.cpp: a character
-- device whose thread changes a buffer, and a program that reads it. The thread is a machine of
-- small steps; the file operations and the module's entry points run between its steps.
mod Reading
mod Thread
mod UserApp
mod Program
mod Examples
use unx511_unix_systems_prog.Prelude.{
  ℕ, zero, suc, ◌+◌, ◌-◌, ◌*◌, ◌%◌, ◌≤◌, Bool, true, false, ◌&&◌, not, List, [], ◌∷◌, ◌++◌, ltb,
  leb, ◌==◌, if◌then◌else◌, length, take, drop, replicate, map,
}
use unx511_unix_systems_prog.Prelude.Int.{ℤ, pos, negsuc}

abbrev pub buf_len : ℕ
buf_len = 16

-- device_file_major_number, buffer, is_running and is_halt.
pub record Device : Type 0 where
  pub major : ℕ
  pub buffer : List ℕ
  pub is_running : Bool
  pub is_halt : Bool

-- Where the thread of hardwareSim stands: before its first statement; in its first loop, at buffer[i];
-- at the test of the outer loop; at the test of the inner loop; in the for loop, before ++buffer[i],
-- and behind it; returned. Nothing locks the buffer.
pub data Sim : Type 0 where
  start outer inner returned : Sim
  filling rotating wrapping : ℕ → Sim

-- buffer[i] as `f` changes it.
abbrev pub update : ℕ → (ℕ → ℕ) → List ℕ → List ℕ
update i f [] = []
update zero f (c ∷ s) = f c ∷ s
update (suc i) f (c ∷ s) = c ∷ update i f s

-- ++buffer[i].
abbrev pub increment : ℕ → ℕ
increment c = (c + 1) % 256

-- The test against 'z', on a signed char: from 128 on it is negative.
abbrev pub wrap : ℕ → ℕ
wrap d = if ltb 122 d && ltb d 128 then 97 else d

pub next_char : ℕ → ℕ
next_char c = wrap (increment c)

abbrev changes : ℕ → (ℕ → ℕ) → Device → Device
changes i f d = record d { buffer = update i f d.buffer }

-- From one access to a shared variable to the next. Behind each for loop the string is ended; a round
-- of the inner loop then sleeps a second.
pub sim_step : Sim → Device → Sim × Device
sim_step start d = (filling 0, d)
sim_step (filling i) d =
    if ltb i (buf_len - 1)
    then (filling (suc i), changes i (λ c. 97) d)
    else (outer, changes (buf_len - 1) (λ c. 0) d)
sim_step outer d = (if d.is_running then inner else returned, d)
sim_step inner d = (if d.is_halt then outer else rotating 0, d)
sim_step (rotating i) d =
    if ltb i (buf_len - 1)
    then (wrapping i, changes i increment d)
    else (inner, changes (buf_len - 1) (λ c. 0) d)
sim_step (wrapping i) d = (rotating (suc i), changes i wrap d)
sim_step returned d = (returned, d)

-- What register_chrdev answers: a major number, or -(n + 1).
pub register_device : ℤ → Device → ℤ × Device
register_device (negsuc n) d = (negsuc n, d)
register_device (pos n) d = (pos 0, record d { major = n; is_running = true; is_halt = false })

-- Whether unregister_chrdev is called, and the device after it.
pub unregister_device : Device → Bool × Device
unregister_device d = (not (d.major == 0), record d { is_running = false; is_halt = false })

-- -EFAULT and -EINVAL.
abbrev pub efault : ℤ
efault = negsuc 13

abbrev pub einval : ℤ
einval = negsuc 21

-- The result, the bytes that reach the user's buffer, the new offset. `ok` says whether
-- copy_to_user copies all.
pub hardware_device_read : Device → ℕ → ℕ → Bool → ℤ × List ℕ × ℕ
hardware_device_read d len off ok =
    if leb buf_len off
    then (pos 0, [], off)
    else (let room = buf_len - off in
        let bytes_to_read = if ltb len room then len else room in
        if not ok
        then (efault, [], off)
        else (pos bytes_to_read, take bytes_to_read (drop off d.buffer), off + bytes_to_read))

pub data Command : Type 0 where
  halt resume unknown : Command

pub hardware_device_ioctl : Command → Device → ℤ × Device
hardware_device_ioctl halt d = (pos 0, record d { is_halt = true })
hardware_device_ioctl resume d = (pos 0, record d { is_halt = false })
hardware_device_ioctl unknown d = (einval, d)

-- userHardware's three groups of three reads of BUF_LEN bytes into one buffer, on one open file,
-- with what the device's buffer holds at each read: the results of read, and the bytes that came.
pub user_reads : ℕ → List Device → List ℤ × List ℕ
user_reads off [] = ([], [])
user_reads off (d ∷ ds) =
    let (nbytes, bytes, off') = hardware_device_read d buf_len off true in
    let (rs, more) = user_reads off' ds in (nbytes ∷ rs, bytes ++ more)
