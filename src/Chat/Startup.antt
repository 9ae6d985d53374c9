-- ===== src/Chat/Startup.antt =====
-- Lab9/server.cpp and Lab9/client.cpp: the two mains around their loops. 127.0.0.1 is written as a
-- number.
use unx511_unix_systems_prog.Prelude.{
  ℕ, Bool, true, Option, none, some, List, [], ◌∷◌, ◌++◌, if◌then◌else◌,
}
use unx511_unix_systems_prog.Prelude.Int.{pos, negsuc}
use unx511_unix_systems_prog.Prelude.Bytes.{codes, show_int}
use unx511_unix_systems_prog.Prelude.Setup
use unx511_unix_systems_prog.Prelude.Setup.{
  Act, Endpoint, internet, opened, closed, set_nonblocking, bound, listened, started_thread,
  complained, said, Setup, Result, ok, exits, ◌>>=◌, ◌>>◌, pure, act, check, or_exit, open_or_exit,
  atoi, port_of,
}
use unx511_unix_systems_prog.Chat.{max_clients, Event, Effect, session}

abbrev pub loopback : ℕ
loopback = 2130706433

-- argv[1], and what the system answers to the server's calls.
pub record ServerAnswers : Type 0 where
  pub argument : Option (List ℕ)
  pub socket : Option ℕ
  pub bind_ok : Bool
  pub listen_ok : Bool

-- What the kernel does with a call on a descriptor, if there is one.
abbrev on_socket : Option ℕ → Bool → (ℕ → Act) → Setup (Unit {0})
on_socket none granted f = pure tt
on_socket (some fd) granted f = if granted then act (f fd) else pure tt

-- The server up to its loop: only its argument is looked at.
unfoldable pub server_start : ServerAnswers → Setup (Option ℕ)
server_start a = do
  text ← or_exit a.argument (complained (codes "Usage: ./server <port>" ++ (10 ∷ [])) ∷ []) (pos 1)
  let port = atoi text
  on_socket a.socket true opened
  on_socket a.socket true set_nonblocking
  on_socket a.socket a.bind_ok (λ fd. bound fd (internet (port_of port) loopback))
  on_socket a.socket a.listen_ok (λ fd. listened fd max_clients)
  act (said (codes "Server listening on port " ++ (show_int port ++ (10 ∷ []))))
  pure a.socket

-- The server, with the rounds and reads of its session.
unfoldable pub server_main : ServerAnswers → List Event → List Act × Option (List Effect)
server_main a es =
    let (acts, r) = server_start a in
    elim r [ ok fd ↦ (acts, some (session es)) | exits status ↦ (acts, none) ]

-- argv[1], and what the system answers to the client's calls.
pub record ClientAnswers : Type 0 where
  pub argument : Option (List ℕ)
  pub socket : Option ℕ
  pub connect_ok : Bool
  pub thread_ok : Bool

-- The client up to is_running=true.
unfoldable pub client_start : ClientAnswers → Setup ℕ
client_start a = do
  text ←
      or_exit a.argument (said (codes "usage: client <port number>" ++ (10 ∷ [])) ∷ []) (negsuc 0)
  fd ← open_or_exit a.socket (complained (codes "socket") ∷ []) (negsuc 0)
  check a.connect_ok (complained (codes "connect") ∷ closed fd ∷ []) (negsuc 0)
  act (Setup.connected fd (internet (port_of (atoi text)) loopback))
  check a.thread_ok (complained (codes "Cannot create receive thread") ∷ closed fd ∷ []) (negsuc 0)
  act started_thread
  pure fd
