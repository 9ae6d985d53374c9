-- ===== src/NetworkMonitor.antt =====
-- assignment2/src/networkMonitor.cpp: the process that starts one monitor for each network interface,
-- shakes hands with them over a Unix socket and answers their reports. Answers of the system (fork,
-- accept, read, select) are arguments, and so is what an uninitialised buffer holds; what the process
-- does outside is a list of effects. Here the socket is there already; Startup is what comes before.
mod Cleanup
pub mod Startup
mod Serving
mod Examples
use unx511_unix_systems_prog.Prelude.{
  ℕ, zero, suc, ◌+◌, Bool, true, false, ◌&&◌, not, Option, none, some, List, [], ◌∷◌, ◌++◌, ltb,
  ◌==◌, if◌then◌else◌, map,
}
use unx511_unix_systems_prog.Prelude.Int.{ℤ, pos, negsuc}
use unx511_unix_systems_prog.Prelude.Bytes.{codes, c_string, overwrite, bytes_eq}

-- The messages of the protocol.
abbrev pub ready : List ℕ
ready = codes "Ready"

abbrev pub monitor : List ℕ
monitor = codes "Monitor"

abbrev pub monitoring : List ℕ
monitoring = codes "Monitoring"

abbrev pub link_down : List ℕ
link_down = codes "Link Down"

abbrev pub set_link_up : List ℕ
set_link_up = codes "Set Link Up"

abbrev pub shut_down : List ℕ
shut_down = codes "Shut Down"

-- client_sockets, child_pids and server_sock (-1 is `none`).
pub record Monitor : Type 0 where
  pub client_sockets : List ℕ
  pub child_pids : List ℤ
  pub server_sock : Option ℕ

pub data Effect : Type 0 where
  wrote : ℕ → List ℕ → Effect
  closed : ℕ → Effect
  interrupted : ℤ → Effect
  unlinked : Effect
  said_started : ℕ → Effect
  said_link_down : ℕ → Effect

-- fork's answers in the parent, one for each interface: a process id, or -1.
pub fork_children : List ℤ → Monitor → Monitor
fork_children [] s = s
fork_children (pid ∷ pids) s =
    fork_children pids (record s { child_pids = s.child_pids ++ (pid ∷ []) })

-- The talk with one client: `junk` is what the buffer holds before, r1 and r2 what the reads put at
-- its front (nothing, if a read fails: its result is not looked at).
unfoldable pub shake_hands : ℕ → ℕ → List ℕ → List ℕ → List ℕ → List Effect
shake_hands i fd junk r1 r2 =
    let buffer = overwrite r1 junk in
    if bytes_eq (c_string buffer) ready
    then wrote fd monitor
      ∷ (if bytes_eq (c_string (overwrite r2 buffer)) monitoring
          then said_started (i + 1) ∷ []
          else [])
    else []

-- What accept gives in one round (`none` is -1), with the buffer and the reads of the talk.
pub record Arrival : Type 0 where
  pub client_fd : Option ℕ
  pub junk : List ℕ
  pub first_read : List ℕ
  pub second_read : List ℕ

accept_one : ℕ → Arrival → Option ℕ → Monitor → Monitor × List Effect
accept_one i a none s = (s, [])
accept_one i a (some fd) s = (
  record s { client_sockets = s.client_sockets ++ (fd ∷ []) },
  shake_hands i fd a.junk a.first_read a.second_read,
)

-- The loop over the interfaces, from round i on.
pub accept_clients : ℕ → List Arrival → Monitor → Monitor × List Effect
accept_clients i [] s = (s, [])
accept_clients i (a ∷ as') s =
    let (s', es) = accept_one i a a.client_fd s in
    let (s'', es') = accept_clients (suc i) as' s' in (s'', es ++ es')

-- What one client's socket does in a round of select: whether it is readable, and what read then
-- puts into the buffer (`none`: the read gives no byte).
pub record Readiness : Type 0 where
  pub is_set : Bool
  pub junk : List ℕ
  pub read : Option (List ℕ)

answer_read : ℕ → ℕ → List ℕ → Option (List ℕ) → List Effect
answer_read i fd junk none = []
answer_read i fd junk (some s) =
    if bytes_eq (c_string (overwrite s junk)) link_down
    then said_link_down (i + 1) ∷ wrote fd set_link_up ∷ []
    else []

pub answer_one : ℕ → ℕ → Readiness → List Effect
answer_one i fd r = if r.is_set then answer_read i fd r.junk r.read else []

-- The inner loop of a round in which select reports some activity.
pub answer_clients : ℕ → List ℕ → List Readiness → List Effect
answer_clients i [] rs = []
answer_clients i (fd ∷ fds) [] = []
answer_clients i (fd ∷ fds) (r ∷ rs) = answer_one i fd r ++ answer_clients (suc i) fds rs

-- The rounds of select: `none` is a round without activity, or an error.
pub poll_clients : List ℕ → List (Option (List Readiness)) → List Effect
poll_clients fds [] = []
poll_clients fds (none ∷ rounds) = poll_clients fds rounds
poll_clients fds (some rs ∷ rounds) = answer_clients 0 fds rs ++ poll_clients fds rounds

shut_down_clients : List ℕ → List Effect
shut_down_clients [] = []
shut_down_clients (fd ∷ fds) = wrote fd shut_down ∷ closed fd ∷ shut_down_clients fds

close_server : Option ℕ → List Effect
close_server none = []
close_server (some fd) = closed fd ∷ []

-- The handler of ctrl-C, which then exits.
pub cleanup_and_exit : Monitor → List Effect
cleanup_and_exit s =
    shut_down_clients s.client_sockets
    ++ (map interrupted s.child_pids ++ (close_server s.server_sock ++ (unlinked ∷ [])))

-- main from the forks on, until ctrl-C.
pub session : ℕ → List ℤ → List Arrival → List (Option (List Readiness)) → List Effect
session server pids arrivals rounds =
    let s0 : Monitor = record { client_sockets = []; child_pids = []; server_sock = some server } in
    let (s1, es) = accept_clients 0 arrivals (fork_children pids s0) in
    es ++ (poll_clients s1.client_sockets rounds ++ cleanup_and_exit s1)
