-- ===== src/Logger.antt =====
-- Assignment3/client/Logger.cpp and Logger.h: the logging client of an automobile program. The
-- module's variables are a record; each function returns the new record and what it did outside.
-- What the system answers (getenv, socket, fcntl, inet_pton, pthread_create, recvfrom, ctime_r) is
-- an argument.
pub mod Lifecycle
pub mod Datagram
pub mod Filter
mod Examples
use unx511_unix_systems_prog.Prelude.{
  ℕ, zero, suc, ◌+◌, ◌-◌, ◌%◌, ◌≤◌, ◌<◌, Bool, true, false, not, ◌&&◌, ◌||◌, Option, none, some,
  List, [], ◌∷◌, ◌++◌, ltb, leb, ◌==◌, if◌then◌else◌, length, take,
}
use unx511_unix_systems_prog.Prelude.Int.{ℤ, pos, negsuc}
use unx511_unix_systems_prog.Prelude.Setup.{atoi}
use unx511_unix_systems_prog.Prelude.Bytes.{codes, c_string, scan_literal, scan_int, show_int}

abbrev pub log_buf_len : ℕ
log_buf_len = 2048

abbrev pub default_log_server_port : ℕ
default_log_server_port = 55555

abbrev pub default_log_server_ip : List ℕ
default_log_server_ip = codes "127.0.0.1"

pub data LogLevel : Type 0 where
  debug warning error critical : LogLevel

-- The enumerators' values.
abbrev pub level_value : LogLevel → ℕ
level_value debug = 0
level_value warning = 1
level_value error = 2
level_value critical = 3

-- static_cast<LOG_LEVEL> of a value that the caller has checked.
abbrev pub level_of : ℕ → LogLevel
level_of zero = debug
level_of (suc zero) = warning
level_of (suc (suc zero)) = error
level_of _ = critical

-- sockaddr_in: the port and the address.
pub record Address : Type 0 where
  pub sin_port : ℕ
  pub sin_addr : ℕ

-- g_fd (-1 is `none`), g_server, g_is_running, g_filter and g_rx_thread (whether one is kept).
pub record Logger : Type 0 where
  pub fd : Option ℕ
  pub server : Address
  pub is_running : Bool
  pub filter : LogLevel
  pub rx_thread : Bool

abbrev pub zero_address : Address
zero_address = record { sin_port = 0; sin_addr = 0 }

unfoldable pub initial : Logger
initial = record {
  fd = none;
  server = zero_address;
  is_running = false;
  filter = debug;
  rx_thread = false;
}

-- What a function does outside: descriptors, the thread, datagrams, waits in microseconds.
pub data Effect : Type 0 where
  opened closed : ℕ → Effect
  thread_started thread_joined : Effect
  sent : ℕ → List ℕ → Address → Effect
  slept : ℕ → Effect

-- What the system answers during one InitializeLog.
pub record InitAnswers : Type 0 where
  pub env_ip : Option (List ℕ)
  pub env_port : Option (List ℕ)
  pub socket : Option ℕ
  pub getfl_ok : Bool
  pub setfl_ok : Bool
  pub inet_pton : List ℕ → Option ℕ
  pub thread_ok : Bool

abbrev make_nonblocking : InitAnswers → Bool
make_nonblocking a = if not a.getfl_ok then false else (if not a.setfl_ok then false else true)

-- A port that is not positive is replaced.
abbrev positive_or_default : ℤ → ℕ
positive_or_default (pos zero) = default_log_server_port
positive_or_default (pos (suc n)) = suc n
positive_or_default (negsuc n) = default_log_server_port

abbrev pub chosen_port : Option (List ℕ) → ℕ
chosen_port none = default_log_server_port
chosen_port (some s) = positive_or_default (atoi s)

abbrev chosen_ip : Option (List ℕ) → List ℕ
chosen_ip none = default_log_server_ip
chosen_ip (some s) = s

-- Past the socket: on each failure the descriptor is closed.
initialize_socket : ℕ → InitAnswers → Logger → Logger × ℤ × List Effect
initialize_socket d a l =
    let failed = record l { fd = none } in
    if not (make_nonblocking a)
    then (failed, negsuc 0, opened d ∷ closed d ∷ [])
    else elim (a.inet_pton (chosen_ip a.env_ip)) [
      | none ↦ (
        record failed {
          server = record zero_address { sin_port = chosen_port a.env_port % 65536 };
        },
        negsuc 0,
        opened d ∷ closed d ∷ [],
      )
      | some ip ↦
          let g_server : Address = record {
            sin_port = chosen_port a.env_port % 65536;
            sin_addr = ip;
          } in
          if not a.thread_ok
          then (
            record failed { server = g_server; is_running = false },
            negsuc 0,
            opened d ∷ closed d ∷ [],
          )
          else (
            record l { fd = some d; server = g_server; is_running = true; rx_thread = true },
            pos 0,
            opened d ∷ thread_started ∷ [],
          )
    ]

unfoldable pub initialize_log : InitAnswers → Logger → Logger × ℤ × List Effect
unfolding initialize_socket
initialize_log a l = if l.is_running then (l, pos 0, []) else elim a.socket [
  | none ↦ (record l { fd = none }, negsuc 0, [])
  | some d ↦ initialize_socket d a l
]

unfoldable pub set_log_level : LogLevel → Logger → Logger
set_log_level level l = record l { filter = level }

abbrev close_if_open : Option ℕ → List Effect
close_if_open none = []
close_if_open (some d) = closed d ∷ []

unfoldable pub exit_log : Logger → Logger × List Effect
exit_log l = if not l.is_running then (l, []) else (
  record l { is_running = false; rx_thread = false; fd = none },
  (if l.rx_thread then thread_joined ∷ [] else []) ++ close_if_open l.fd,
)

-- ctime_r ends its text with a newline, which is cut off.
trim_newline : List ℕ → List ℕ
trim_newline [] = []
trim_newline (c ∷ []) = if c == 10 then [] else c ∷ []
trim_newline (c ∷ d ∷ s) = c ∷ trim_newline (d ∷ s)

abbrev pub level_str : LogLevel → List ℕ
level_str debug = codes "DEBUG"
level_str warning = codes "WARNING"
level_str error = codes "ERROR"
level_str critical = codes "CRITICAL"

-- The arguments of Log: the level, the place in the source, the message (`none` is NULL).
pub record Entry : Type 0 where
  pub level : LogLevel
  pub file : List ℕ
  pub func : List ℕ
  pub line : ℕ
  pub message : Option (List ℕ)

abbrev pub message_text : Option (List ℕ) → List ℕ
message_text none = []
message_text (some m) = m

-- "%s %s %s:%s:%d %s\n"
unfoldable pub log_line : List ℕ → Entry → List ℕ
unfolding trim_newline
log_line dt e =
    trim_newline dt
    ++ (32 ∷ level_str e.level
        ++ (32 ∷ e.file
            ++ (58 ∷ e.func
                ++ (58 ∷ show_int (pos e.line) ++ (32 ∷ message_text e.message ++ (10 ∷ []))))))

-- snprintf into `buf` and the cut to sizeof(buf) - 1: n + 1 bytes with the final zero are sent.
unfoldable pub datagram : List ℕ → List ℕ
datagram text = take (log_buf_len - 1) text ++ (0 ∷ [])

abbrev send_datagram : Option ℕ → Address → List ℕ → List Effect
send_datagram none to text = []
send_datagram (some d) to text = sent d (datagram text) to ∷ []

-- Log: `dt` is what ctime_r wrote.
unfoldable pub log : List ℕ → Entry → Logger → List Effect
log dt e l =
    if not l.is_running
    then []
    else (if ltb (level_value e.level) (level_value l.filter)
        then []
        else send_datagram l.fd l.server (log_line dt e))

-- What recvfrom answers: a datagram, nothing yet (EWOULDBLOCK or EAGAIN), another error.
pub data Received : Type 0 where
  bytes : List ℕ → Received
  would_block failed : Received

abbrev accepted_level : Option ℤ → LogLevel → LogLevel
accepted_level none old = old
accepted_level (some (negsuc n)) old = old
accepted_level (some (pos n)) old = if leb n (level_value critical) then level_of n else old

abbrev parse_command : Option (List ℕ) → Option ℤ
parse_command none = none
parse_command (some s) = scan_int s

-- sscanf(buf, "Set Log Level=%d", &newLevel) on the C string in the buffer.
unfoldable pub scan_command : List ℕ → Option ℤ
scan_command buf = parse_command (scan_literal (codes "Set Log Level=") (c_string buf))

-- One round of the receiver thread's loop; `recvfrom` takes at most sizeof(buf) - 1 bytes.
unfoldable pub rx_round : Received → Logger → Logger × List Effect
rx_round would_block l = (l, slept 1000000 ∷ [])
rx_round failed l = (l, slept 100000 ∷ [])
rx_round (bytes s) l =
    let buf = take (log_buf_len - 1) s ++ (0 ∷ []) in
    (record l { filter = accepted_level (scan_command buf) l.filter }, [])

-- The thread's function: rounds while g_is_running holds.
unfoldable pub rx_thread_func : List Received → Logger → Logger × List Effect
rx_thread_func [] l = (l, [])
rx_thread_func (r ∷ rs) l =
    if not l.is_running
    then (l, [])
    else (let (l', es) = rx_round r l in let (l'', es') = rx_thread_func rs l' in (l'', es ++ es'))
