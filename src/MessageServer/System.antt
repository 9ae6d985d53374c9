-- ===== src/MessageServer/System.antt =====
-- Lab8: the server and its three clients on one message queue. Each step is a round of one of their
-- threads, so that a schedule is a list of steps. It is the time before the first ctrl-C: until then no
-- loop ends, no program says "Quit" or removes the queue, and no signal ends a msgrcv. A msgrcv that has
-- to wait is a step that the schedule does not have yet; a msgsnd finds room.
pub mod Flows
mod Ways
pub mod Typing
mod Typed
pub mod Keeping
mod Rounds
pub mod Ordered
pub mod Awake
mod Silence
mod Emptying
pub mod Draining
use unx511_unix_systems_prog.Prelude.{
  ℕ, Bool, true, false, not, ◌&&◌, Option, none, some, List, [], ◌∷◌, ◌++◌, if◌then◌else◌, map, put,
}
use unx511_unix_systems_prog.Prelude.Bytes.{codes, show_nat}
use unx511_unix_systems_prog.MessageServer.{Message, Server, Client, initial, client}
use unx511_unix_systems_prog.MessageServer
use unx511_unix_systems_prog.MessageServer.Clients
use unx511_unix_systems_prog.MessageServer.Queue.{MessageQueue}

-- Whether the server's receive thread is still in its loop.
pub record System (Q : Type 0) : Type 0 where
  pub queue : Q
  pub server : Server
  pub server_receiving : Bool
  pub clients : ℕ → Client

-- A round of client n's main loop, in the process `pid`; of its receive thread; of the server's receive
-- thread; of its main loop.
pub data Event : Type 0 where
  client_sends : ℕ → ℕ → Event
  client_receives : ℕ → Event
  server_receives server_sends : Event

-- What is seen of it: who has sent, taken or printed which message.
pub data Act : Type 0 where
  client_sent : Message → Act
  server_took server_sent : Message → Act
  client_took client_printed : ℕ → Message → Act

-- "%d: Message from client %d\n", the second number being written out in each program.
unfoldable pub text_of : ℕ → ℕ → List ℕ
text_of n pid = show_nat pid ++ (codes ": Message from client " ++ (show_nat n ++ (10 ∷ [])))

module _ (k : MessageQueue) where
  abbrev pub send_all : List Message → k.Queue → k.Queue
  send_all [] q = q
  send_all (m ∷ ms) q = send_all ms (k.msgsnd m q)

  -- A round of client n's main loop or of the server's, and what it sends.
  unfoldable pub client_does :
      ℕ → Client × List Message × List Message → System k.Queue → System k.Queue × List Act
  client_does n (c, printed, sent) s = (
    record s { queue = send_all sent s.queue; clients = put n c s.clients },
    map (client_printed n) printed ++ map client_sent sent,
  )

  unfoldable pub server_does : Server × List Message → System k.Queue → System k.Queue × List Act
  server_does (server, sent) s =
      (record s { queue = send_all sent s.queue; server = server }, map server_sent sent)

  -- What client n's thread does with the message that msgrcv has found, if it has found one.
  unfoldable pub client_takes :
      ℕ → Option (Message × k.Queue) → System k.Queue → System k.Queue × List Act
  client_takes n none s = (s, [])
  client_takes n (some (m, q)) s = (
    record s {
      queue = q;
      clients = put n (Clients.step (Clients.receives m) (s.clients n)).0 s.clients;
    },
    client_took n m ∷ [],
  )

  unfoldable pub server_takes :
      Option (Message × k.Queue) → System k.Queue → System k.Queue × List Act
  server_takes none s = (s, [])
  server_takes (some (m, q)) s = (
    record s {
      queue = q;
      server = (MessageServer.step (MessageServer.receives (some m)) s.server).0;
      server_receiving = s.server.is_running;
    },
    server_took m ∷ [],
  )

  unfoldable pub step : Event → System k.Queue → System k.Queue × List Act
  step (client_sends n pid) s =
      client_does n (Clients.step (Clients.rounds (text_of n pid)) (s.clients n)) s
  step (client_receives n) s =
      if (s.clients n).receiving then client_takes n (k.msgrcv n s.queue) s else (s, [])
  step server_receives s =
      if s.server_receiving then server_takes (k.msgrcv 4 s.queue) s else (s, [])
  step server_sends s = server_does (MessageServer.step MessageServer.sends s.server) s

  unfoldable pub run : List Event → System k.Queue → System k.Queue × List Act
  run [] s = (s, [])
  run (e ∷ es) s = let (s', acts) = step e s in let (s'', acts') = run es s' in (s'', acts ++ acts')

  -- All have started, and nothing has been sent.
  abbrev pub start : System k.Queue
  start = record { queue = k.fresh; server = initial; server_receiving = true; clients = client }
