-- ===== src/LogServer.antt =====
-- Assignment3/server/LogServer.cpp: the server that collects the clients' lines and sends a filter
-- level back to the last sender. Its variables are a record; recvfrom's answers, standard input and
-- what the log file holds are arguments. Reads and writes of the log file succeed.
pub mod Replies
mod Commands
mod Menu
pub mod Lines
mod Startup
mod Serving
mod Shutdown
mod Ports
mod Receiver
mod Examples
use unx511_unix_systems_prog.Prelude.{
  ℕ, zero, suc, ◌+◌, ◌-◌, ◌%◌, ◌≤◌, ◌<◌, Bool, true, false, not, ◌&&◌, ◌||◌, Option, none, some,
  List, [], ◌∷◌, ◌++◌, ltb, leb, ◌==◌, if◌then◌else◌, length, take,
}
use unx511_unix_systems_prog.Prelude.Int.{ℤ, pos, negsuc}
use unx511_unix_systems_prog.Prelude.Bytes.{codes, show_int, scan_stream}

abbrev pub log_buf_len : ℕ
log_buf_len = 2048

-- sizeof(sockaddr_in).
abbrev pub sockaddr_len : ℕ
sockaddr_len = 16

-- g_is_running, g_last_sender, g_last_sender_len, and what server.log holds.
pub record Server : Type 0 where
  pub is_running : Bool
  pub last_sender : ℕ
  pub last_sender_len : ℕ
  pub log_file : List ℕ

-- g_last_sender is zero-initialised, and its length starts at sizeof(g_last_sender).
unfoldable pub initial : Server
initial = record {
  is_running = true;
  last_sender = 0;
  last_sender_len = sockaddr_len;
  log_file = [];
}

-- What recvfrom answers: a datagram with its sender and that address's length, or an error.
pub data Received : Type 0 where
  bytes : List ℕ → ℕ → ℕ → Received
  would_block failed : Received

-- What happens outside: waits in microseconds, commands to a sender, lines on the screen.
pub data Effect : Type 0 where
  slept : ℕ → Effect
  sent : List ℕ → ℕ → Effect
  said_no_sender : Effect
  dumped : List ℕ → Effect

-- A round of rx_thread_func. At most sizeof(buf) - 1 bytes are taken, and all of them are logged.
unfoldable pub rx_round : Received → Server → Server × List Effect
rx_round would_block g = (g, slept 1000000 ∷ [])
rx_round failed g = (g, slept 100000 ∷ [])
rx_round (bytes s rem rlen) g = (
  record g {
    last_sender = rem;
    last_sender_len = rlen;
    log_file = g.log_file ++ take (log_buf_len - 1) s;
  },
  [],
)

-- "Set Log Level=%d" and its final zero: snprintf's n + 1 bytes.
unfoldable pub command : ℤ → List ℕ
command lvl = codes "Set Log Level=" ++ (show_int lvl ++ (0 ∷ []))

-- The reply under the menu's 1, once a level has been read.
unfoldable pub send_level : ℤ → Server → List Effect
send_level lvl g =
    if ltb 0 g.last_sender_len then sent (command lvl) g.last_sender ∷ [] else said_no_sender ∷ []

-- getchar until a newline or the end of the input.
pub flush_line : List ℕ → List ℕ
flush_line [] = []
flush_line (c ∷ s) = if c == 10 then s else flush_line s

drop_char : List ℕ → List ℕ
drop_char [] = []
drop_char (c ∷ s) = s

-- `(v, rest)`: scanf's value, if it read one, and what stays in the input.
set_level : Option ℤ × List ℕ → Server → List ℕ × List Effect
set_level (none, rest) g = (flush_line rest, [])
set_level (some lvl, rest) g = (flush_line rest, send_level lvl g)

-- A selection `ch`, with what follows it in the input: the state, the input left, the effects.
pub select : ℕ → List ℕ → Server → Server × List ℕ × List Effect
select ch s g =
    let after = flush_line s in
    if ch == 49
    then (let (rest, es) = set_level (scan_stream after) g in (g, rest, es))
    else (if ch == 50
        then (g, drop_char after, dumped g.log_file ∷ [])
        else (if ch == 48 then (record g { is_running = false }, after, []) else (g, after, [])))

-- The menu loop over standard input; `none` means that the fuel ran out. The end of the input
-- leaves the loop with g_is_running as it is.
pub menu_loop : ℕ → List ℕ → Server → Option (Server × List Effect)
menu_loop zero s g = none
menu_loop (suc f) [] g = some (g, [])
menu_loop (suc f) (ch ∷ s) g =
    let (g', rest, es) = select ch s g in
    let again = menu_loop f s g in
    let next : Option (Server × List Effect) = elim (menu_loop f rest g') [
      | none ↦ none
      | some (h, fs) ↦ some (h, es ++ fs)
    ] in
    if not g.is_running then some (g, []) else (if ch == 10 then again else next)
