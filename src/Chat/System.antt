-- ===== src/Chat/System.antt =====
-- Lab9: the server and its clients together, each client on its own connection. A step is a move of one
-- client, a round of the server's main loop, or a round of the thread of one connection.
pub mod Bytes
use unx511_unix_systems_prog.Prelude.{
  ℕ, Bool, true, false, ◌||◌, Option, some, List, [], ◌∷◌, ◌++◌, ◌==◌, if◌then◌else◌, take, put,
}
use unx511_unix_systems_prog.Chat.{Server, Client, Effect, Move, initial, client}
use unx511_unix_systems_prog.Chat
use unx511_unix_systems_prog.Chat.Stream.{ByteStream}

abbrev pub buf_len : ℕ
buf_len = 4096

-- `streams fd` goes from the client on the connection fd to the server.
pub record System (S : Type 0) : Type 0 where
  pub server : Server
  pub clients : ℕ → Client
  pub streams : ℕ → S

-- A move of the client on connection fd; a round of main, in which a connection may come up for accept; a
-- round of the thread of fd, with the bytes that have come in; ctrl-C in the server.
pub data Event : Type 0 where
  client_moves : ℕ → Move → Event
  server_rounds : Option ℕ → Event
  thread_reads : ℕ → ℕ → Event
  interrupted : Event

-- What is seen: a client's write, a thread's read, what the server does.
pub data Act : Type 0 where
  wrote took : ℕ → List ℕ → Act
  did : Effect → Act

abbrev pub elem : ℕ → List ℕ → Bool
elem fd [] = false
elem fd (x ∷ xs) = (x == fd) || elem fd xs

-- The connections that have a thread.
unfoldable pub has_thread : ℕ → Server → Bool
has_thread fd s = elem fd (take s.client_count s.conn_fds)

abbrev pub each_wrote : ℕ → List (List ℕ) → List Act
each_wrote fd [] = []
each_wrote fd (text ∷ texts) = wrote fd text ∷ each_wrote fd texts

abbrev pub each_did : List Effect → List Act
each_did [] = []
each_did (e ∷ es) = did e ∷ each_did es

module _ (k : ByteStream) where
  abbrev pub write_all : List (List ℕ) → k.Stream → k.Stream
  write_all [] s = s
  write_all (text ∷ texts) s = write_all texts (k.write text s)

  unfoldable pub client_does :
      ℕ → Client × List (List ℕ) → System k.Stream → System k.Stream × List Act
  client_does fd (c, texts) s = (
    record s {
      clients = put fd c s.clients;
      streams = put fd (write_all texts (s.streams fd)) s.streams;
    },
    each_wrote fd texts,
  )

  unfoldable pub server_does : Server × List Effect → System k.Stream → System k.Stream × List Act
  server_does (server, out) s = (record s { server = server }, each_did out)

  -- A round of receive_thread: read, and what it has got into the server's queue.
  unfoldable pub thread_takes : ℕ → List ℕ × k.Stream → System k.Stream → System k.Stream × List Act
  thread_takes fd (bytes, rest) s = (
    record s {
      server = (Chat.step (Chat.reads (some bytes)) s.server).0;
      streams = put fd rest s.streams;
    },
    took fd bytes ∷ [],
  )

  unfoldable pub step : Event → System k.Stream → System k.Stream × List Act
  step (client_moves fd m) s = client_does fd (Chat.move m (s.clients fd)) s
  step (server_rounds fd) s = server_does (Chat.step (Chat.rounds fd) s.server) s
  step (thread_reads fd available) s =
      if has_thread fd s.server
      then thread_takes fd (k.read buf_len available (s.streams fd)) s
      else (s, [])
  step interrupted s = server_does (Chat.step Chat.interrupted s.server) s

  unfoldable pub run : List Event → System k.Stream → System k.Stream × List Act
  run [] s = (s, [])
  run (e ∷ es) s = let (s', acts) = step e s in let (s'', acts') = run es s' in (s'', acts ++ acts')

  -- Nothing written yet; `junk` is what the clients' buffers hold.
  abbrev pub start : (ℕ → List ℕ) → System k.Stream
  start junk = record {
    server = initial;
    clients = λ fd. client (junk fd);
    streams = λ fd. k.opened;
  }
