-- ===== src/Chat.antt =====
-- Lab9/server.cpp and Lab9/client.cpp: a server that prints what up to three clients write to it, and
-- the client. What accept and read give is an argument; what a program does outside is a list of
-- effects.
mod Printing
mod Connections
mod Stream
mod System
mod Start
mod Startup
mod Beginning
mod Examples
use unx511_unix_systems_prog.Prelude.{
  ℕ, ◌+◌, Bool, true, false, not, ◌&&◌, Option, none, some, List, [], ◌∷◌, ◌++◌, map, ltb,
  if◌then◌else◌, take, set,
}
use unx511_unix_systems_prog.Prelude.Bytes.{codes, c_string, overwrite, bytes_eq}

abbrev pub max_clients : ℕ
max_clients = 3

-- is_running, client_count, conn_fds and message_queue.
pub record Server : Type 0 where
  is_running : Bool
  client_count : ℕ
  conn_fds : List ℕ
  pub message_queue : List (List ℕ)

abbrev pub initial : Server
initial = record {
  is_running = true;
  client_count = 0;
  conn_fds = 0 ∷ 0 ∷ 0 ∷ [];
  message_queue = [];
}

pub data Effect : Type 0 where
  connected : ℕ → Effect
  message : List ℕ → Effect
  sent : ℕ → List ℕ → Effect
  joined : ℕ → Effect
  closed : ℕ → Effect
  closed_server : Effect

-- accept is called while there is room; it gives a descriptor, or -1 (`none`).
pub accept_client : Option ℕ → Server → Server × List Effect
accept_client none s = (s, [])
accept_client (some fd) s =
    if ltb s.client_count max_clients
    then (
      record s { conn_fds = set s.conn_fds s.client_count fd; client_count = s.client_count + 1 },
      connected fd ∷ [],
    )
    else (s, [])

-- One round of main's loop: a client may come, then the queue is printed until it is empty.
pub main_round : Option ℕ → Server → Server × List Effect
main_round fd s =
    let (s', out) = accept_client fd s in
    (record s' { message_queue = [] }, out ++ map message s'.message_queue)

-- A round of main, a read by a receive thread with its bytes (`none`: no byte within five seconds,
-- the end or an error), ctrl-C.
pub data Event : Type 0 where
  rounds : Option ℕ → Event
  reads : Option (List ℕ) → Event
  interrupted : Event

-- main's loop runs while is_running holds; a receive thread may finish a read after that.
pub step : Event → Server → Server × List Effect
step (rounds fd) s = if s.is_running then main_round fd s else (s, [])
step (reads none) s = (s, [])
step (reads (some [])) s = (s, [])
step (reads (some (c ∷ text))) s =
    (record s { message_queue = s.message_queue ++ ((c ∷ text) ∷ []) }, [])
step interrupted s = (record s { is_running = false }, [])

pub run : List Event → Server → Server × List Effect
run [] s = (s, [])
run (e ∷ es) s = let (s', out) = step e s in let (s'', out') = run es s' in (s'', out ++ out')

-- After the loop, for each connection.
pub quit_clients : List ℕ → List Effect
quit_clients [] = closed_server ∷ []
quit_clients (fd ∷ fds) =
    sent fd (codes "Quit" ++ (0 ∷ [])) ∷ joined fd ∷ closed fd ∷ quit_clients fds

pub session : List Event → List Effect
session es = let (s, out) = run es initial in out ++ quit_clients (take s.client_count s.conn_fds)

-- The client: is_running, whether main has come to its loop, whether it is past a test of its loop and
-- has not written yet, whether the receive thread is still in its own loop, and that thread's buffer.
pub record Client : Type 0 where
  is_running : Bool
  started : Bool
  writing : Bool
  receiving : Bool
  buf : List ℕ

-- After pthread_create, with what the buffer happens to hold.
abbrev pub client : List ℕ → Client
client junk = record {
  is_running = false;
  started = false;
  writing = false;
  receiving = true;
  buf = junk;
}

-- main sets is_running; a round of recv_func with what read gives (`none` is -1); main tests
-- is_running; after its second of sleep it writes a text.
pub data Move : Type 0 where
  sets_running : Move
  receives : Option (List ℕ) → Move
  tests : Move
  writes : List ℕ → Move

-- read has put its bytes into the buffer, which is then compared as a C string.
pub take_bytes : List ℕ → Client → Client
take_bytes bytes c =
    let buf = overwrite bytes c.buf in
    record c { buf = buf; is_running = not (bytes_eq (c_string buf) (codes "Quit")) }

-- recv_func's loop tests is_running and then reads.
pub receive_round : Option (List ℕ) → Client → Client
receive_round none c = if c.is_running then c else record c { receiving = false }
receive_round (some bytes) c =
    if c.is_running then take_bytes bytes c else record c { receiving = false }

-- The client after a move, and what it writes to the server.
pub move : Move → Client → Client × List (List ℕ)
move sets_running c = (if c.started then c else record c { is_running = true; started = true }, [])
move (receives r) c = (if c.receiving then receive_round r c else c, [])
move tests c =
    (if c.started && (not c.writing && c.is_running) then record c { writing = true } else c, [])
move (writes text) c = if c.writing then (record c { writing = false }, text ∷ []) else (c, [])

pub moves : List Move → Client → Client × List (List ℕ)
moves [] c = (c, [])
moves (m ∷ ms) c = let (c', out) = move m c in let (c'', out') = moves ms c' in (c'', out ++ out')
