-- ===== src/InterfaceMonitor.antt =====
-- assignment2/src/intfMonitor.cpp: the process that watches one network interface for the network
-- monitor. What read gives, the state read from /sys and signals come as events.
mod Reports
mod Protocol
mod Startup
mod Connecting
mod Examples
use unx511_unix_systems_prog.Prelude.{
  ℕ, zero, suc, ◌+◌, Bool, true, false, ◌&&◌, not, Option, none, some, List, [], ◌∷◌, ◌++◌, ltb,
  ◌==◌, if◌then◌else◌, replicate,
}
use unx511_unix_systems_prog.Prelude.Bytes.{codes, c_string, overwrite, bytes_eq}
use unx511_unix_systems_prog.NetworkMonitor.{
  ready, monitor, monitoring, link_down, set_link_up, shut_down,
}

abbrev pub buffer_size : ℕ
buffer_size = 128

-- In main's loop at its read, in monitor_interface, or ended.
pub data Pc : Type 0 where
  serving watching exited : Pc

pub data Effect : Type 0 where
  wrote : List ℕ → Effect
  set_up closed : Effect

-- A read of main's loop (`none`: no byte), a round of monitor_interface with the interface's state,
-- or ctrl-C.
pub data Event : Type 0 where
  reads : Option (List ℕ) → Event
  ticks : List ℕ → Event
  sigint : Event

-- sigint_handler: keep_running is cleared, and the process exits.
abbrev pub handler : Pc × List Effect
handler = (exited, wrote (codes "Done") ∷ closed ∷ [])

-- One round of main's loop: the buffer is cleared before the read.
pub serve : List ℕ → Pc × List Effect
serve s =
    let buffer = c_string (overwrite s (replicate buffer_size 0)) in
    if bytes_eq buffer monitor
    then (watching, wrote monitoring ∷ [])
    else (if bytes_eq buffer set_link_up
        then (serving, set_up ∷ [])
        else (if bytes_eq buffer shut_down then handler else (serving, [])))

-- monitor_interface goes round while keep_running holds: it does not look at the socket.
pub step : Pc → Event → Pc × List Effect
step exited e = (exited, [])
step p sigint = handler
step serving (reads none) = (exited, [])
step serving (reads (some s)) = serve s
step serving (ticks state) = (serving, [])
step watching (reads s) = (watching, [])
step watching (ticks state) =
    (watching, if bytes_eq state (codes "up") then [] else wrote link_down ∷ [])

pub run : Pc → List Event → Pc × List Effect
run p [] = (p, [])
run p (e ∷ es) = let (p', fs) = step p e in let (p'', fs') = run p' es in (p'', fs ++ fs')

-- main, once connected.
pub session : List Event → Pc × List Effect
session es = let (p, fs) = run serving es in (p, wrote ready ∷ fs)
