-- ===== src/MessageServer.antt =====
-- Lab8/server.cpp, client1.cpp to client3.cpp and client.h: three clients that write to one another
-- through a server, over one System V message queue. A message of type t is for client t, type 4 is
-- for the server. What msgrcv gives is an argument; msgsnd's messages are the result.
mod Dispatch
mod Clients
mod Delivery
mod Startup
mod Removal
mod Queue
mod System
mod Examples
use unx511_unix_systems_prog.Prelude.{
  ℕ, zero, suc, ◌+◌, Bool, true, false, ◌&&◌, not, Option, none, some, List, [], ◌∷◌, ◌++◌, ltb,
  leb, ◌==◌, if◌then◌else◌, length, map,
}
use unx511_unix_systems_prog.Prelude.Bytes.{codes, has_prefix}

-- mesg_buffer and mymsg.
pub record Message : Type 0 where
  pub mtype : ℕ
  pub source : ℕ
  pub dest : ℕ
  pub buf : List ℕ

-- is_running and messageQueue.
pub record Server : Type 0 where
  pub is_running : Bool
  pub message_queue : List Message

abbrev pub initial : Server
initial = record { is_running = true; message_queue = [] }

-- recv_func's round: what msgrcv gives for type 4 (`none` is -1).
pub recv_round : Option Message → Server → Server
recv_round none s = s
recv_round (some msg) s = record s { message_queue = s.message_queue ++ (msg ∷ []) }

-- Under the lock: the front of the queue, taken off it.
pub take_front : List Message → Server → Server × List Message
take_front [] s = (s, [])
take_front (msg ∷ rest) s =
    (record s { message_queue = rest }, record msg { mtype = msg.dest } ∷ [])

-- main's round: the message sent, if there is one.
pub main_round : Server → Server × List Message
main_round s = take_front s.message_queue s

-- After the loop: "Quit" to each client.
pub quit_message : ℕ → Message
quit_message i = record { mtype = i; source = 0; dest = i; buf = codes "Quit" }

pub quit_all : List Message
unfolding quit_message
quit_all = quit_message 1 ∷ quit_message 2 ∷ quit_message 3 ∷ []

abbrev pub shutdown_handler : Server → Server
shutdown_handler s = record s { is_running = false }

-- One step of either thread, or ctrl-C.
pub data Event : Type 0 where
  receives : Option Message → Event
  sends : Event
  interrupted : Event

-- A thread's round runs while is_running holds; the receiver may finish a msgrcv after that.
pub step : Event → Server → Server × List Message
step (receives m) s = (recv_round m s, [])
step sends s = if s.is_running then main_round s else (s, [])
step interrupted s = (shutdown_handler s, [])

pub run : List Event → Server → Server × List Message
run [] s = (s, [])
run (e ∷ es) s = let (s', ms) = step e s in let (s'', ms') = run es s' in (s'', ms ++ ms')

-- The rounds of the server's threads and then its farewell.
pub session : List Event → List Message
session es = (run es initial).1 ++ quit_all

-- A client: its number, is_running, whether its receive thread is still in its loop, its queue and the
-- dest of its last message.
pub record Client : Type 0 where
  pub number : ℕ
  pub is_running : Bool
  pub receiving : Bool
  pub queue : List Message
  pub dest : ℕ

abbrev pub client : ℕ → Client
client n = record { number = n; is_running = true; receiving = true; queue = []; dest = 0 }

-- The two clients to which client n writes in turn: `if(dest==a) dest=b; else dest=a;`.
abbrev pub first_dest : ℕ → ℕ
first_dest n = if n == 1 then 2 else (if n == 2 then 3 else 1)

abbrev pub second_dest : ℕ → ℕ
second_dest n = if n == 1 then 3 else (if n == 2 then 1 else 2)

pub next_dest : ℕ → ℕ → ℕ
next_dest n dest = if dest == first_dest n then second_dest n else first_dest n

-- recv_func1 to recv_func3, with what `msg` holds after msgrcv: the message received, or, as the
-- result of msgrcv is not looked at, what was in the variable before. A message that begins with "Quit" ends the client, another is queued.
pub client_receives : Message → Client → Client
client_receives msg c =
    if has_prefix (codes "Quit") msg.buf
    then record c { is_running = false }
    else record c { queue = c.queue ++ (msg ∷ []) }

-- A round of a client's main loop, with the text of its message: all queued messages are printed,
-- then one is sent to the server. The result: the client, the messages printed, the message sent.
pub client_round : List ℕ → Client → Client × List Message × Message
client_round text c =
    let dest = next_dest c.number c.dest in
    (
      record c { queue = []; dest = dest },
      c.queue,
      record { mtype = 4; source = c.number; dest = dest; buf = text },
    )
