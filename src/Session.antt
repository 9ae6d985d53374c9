-- ===== src/Session.antt =====
-- Lab6/server.c and Lab6/client.c: a dialogue over a stream socket. Each call of write, read and close
-- is a step of its own; the bytes under way in each direction are a list. The connection stands.
mod Dialogue
mod Startup
mod Descriptors
mod Examples
use unx511_unix_systems_prog.Prelude.{
  ℕ, ◌-◌, Bool, true, false, List, [], ◌∷◌, ◌++◌, if◌then◌else◌, take, drop, replicate,
}
use unx511_unix_systems_prog.Prelude.Bytes.{codes, show_nat, c_string, overwrite, bytes_eq}

abbrev pub buffer_size : ℕ
buffer_size = 256

-- The server's place: its three writes, its two reads in between, its close.
pub data ServerPc : Type 0 where
  writes_pid reads_pid writes_sleep reads_done writes_quit closes closed : ServerPc

-- The client at its read, before the write of an answer, ended.
pub data ClientPc : Type 0 where
  reading ended : ClientPc
  answering : List ℕ → ClientPc

-- The places, the bytes under way to the client and to the server, and the strings that each has read.
pub record System : Type 0 where
  server : ServerPc
  client : ClientPc
  to_client : List ℕ
  to_server : List ℕ
  heard : List (List ℕ)
  served : List (List ℕ)

-- The string in a buffer that was cleared before the read.
abbrev pub read_text : List ℕ → List ℕ
read_text bytes = c_string (overwrite (take buffer_size bytes) (replicate buffer_size 0))

server_writes : List ℕ → ServerPc → System → System
server_writes s next y = record y { server = next; to_client = y.to_client ++ s }

-- Nothing to read: the end of the stream if the client has ended (the result of read is not looked at),
-- else the read blocks.
server_waits : ClientPc → ServerPc → System → System
server_waits ended next y = record y { server = next; heard = y.heard ++ ([] ∷ []) }
server_waits reading next y = y
server_waits (answering s) next y = y

server_reads : List ℕ → ServerPc → System → System
unfolding server_waits
server_reads [] next y = server_waits y.client next y
server_reads (c ∷ s) next y = record y {
  server = next;
  to_server = drop buffer_size (c ∷ s);
  heard = y.heard ++ (read_text (c ∷ s) ∷ []);
}

server_at : ServerPc → System → System
unfolding server_writes server_reads
server_at writes_pid y = server_writes (codes "Pid") reads_pid y
server_at reads_pid y = server_reads y.to_server writes_sleep y
server_at writes_sleep y = server_writes (codes "Sleep") reads_done y
server_at reads_done y = server_reads y.to_server writes_quit y
server_at writes_quit y = server_writes (codes "Quit") closes y
server_at closes y = record y { server = closed }
server_at closed y = y

pub pid_text : ℕ → List ℕ
pid_text pid = codes "This client has pid " ++ show_nat pid

-- Where the client is once it has read `text`.
answer : ℕ → List ℕ → ClientPc
unfolding pid_text
answer pid text =
    if bytes_eq text (codes "Pid")
    then answering (take (buffer_size - 1) (pid_text pid))
    else (if bytes_eq text (codes "Sleep")
        then answering (codes "Done")
        else (if bytes_eq text (codes "Quit") then ended else reading))

client_waits : ServerPc → System → System
client_waits closed y = record y { client = ended }
client_waits _ y = y

client_reads : ℕ → List ℕ → System → System
unfolding answer client_waits
client_reads pid [] y = client_waits y.server y
client_reads pid (c ∷ s) y = record y {
  client = answer pid (read_text (c ∷ s));
  to_client = drop buffer_size (c ∷ s);
  served = y.served ++ (read_text (c ∷ s) ∷ []);
}

client_at : ℕ → ClientPc → System → System
unfolding client_reads
client_at pid reading y = client_reads pid y.to_client y
client_at pid (answering s) y = record y { client = reading; to_server = y.to_server ++ s }
client_at pid ended y = y

pub data Turn : Type 0 where
  server_moves client_moves : Turn

pub step : ℕ → Turn → System → System
unfolding server_at client_at
step pid server_moves y = server_at y.server y
step pid client_moves y = client_at pid y.client y

pub run : ℕ → List Turn → System → System
run pid [] y = y
run pid (t ∷ ts) y = run pid ts (step pid t y)

abbrev pub connected : System
connected = record {
  server = writes_pid;
  client = reading;
  to_client = [];
  to_server = [];
  heard = [];
  served = [];
}
