-- ===== src/Session/Startup.antt =====
-- Lab6/server.c and Lab6/client.c: the two mains up to the dialogue, and the server's end.
use unx511_unix_systems_prog.Prelude.{ℕ, Bool, Option, List, [], ◌∷◌, ◌++◌}
use unx511_unix_systems_prog.Prelude.Int.{pos}
use unx511_unix_systems_prog.Prelude.Bytes.{codes}
use unx511_unix_systems_prog.Prelude.Setup.{
  Act, local, closed, bound, listened, connected, unlinked, complained, said, Setup, Result, ok,
  exits, ◌>>=◌, ◌>>◌, pure, act, check, open_or_exit,
}

abbrev pub socket_path : List ℕ
socket_path = codes "/tmp/lab6"

-- What the system answers to the server's calls; accept gives a descriptor or -1.
pub record ServerAnswers : Type 0 where
  pub socket : Option ℕ
  pub bind_ok : Bool
  pub listen_ok : Bool
  pub accept : Option ℕ

-- The server's socket and its client's.
unfoldable pub server_start : ServerAnswers → Setup (ℕ × ℕ)
server_start a = do
  act (unlinked socket_path)
  fd ← open_or_exit a.socket (complained (codes "socket") ∷ []) (pos 1)
  check a.bind_ok (complained (codes "bind") ∷ []) (pos 1)
  act (bound fd (local socket_path))
  check a.listen_ok (complained (codes "listen") ∷ []) (pos 1)
  act (listened fd 5)
  act (said (codes "[Server] Waiting for connection..." ++ (10 ∷ [])))
  client ← open_or_exit a.accept (complained (codes "accept") ∷ []) (pos 1)
  pure (fd, client)

-- After the dialogue.
unfoldable pub server_end : ℕ × ℕ → List Act
server_end (fd, client) = closed client ∷ closed fd ∷ unlinked socket_path ∷ []

end_with : Result (ℕ × ℕ) → List Act
end_with (exits status) = []
end_with (ok fds) = server_end fds

-- The server's calls around the dialogue.
unfoldable pub server_calls : ServerAnswers → List Act
unfolding end_with
server_calls a = let (acts, r) = server_start a in acts ++ end_with r

pub record ClientAnswers : Type 0 where
  pub socket : Option ℕ
  pub connect_ok : Bool

unfoldable pub client_start : ClientAnswers → Setup ℕ
client_start a = do
  fd ← open_or_exit a.socket (complained (codes "socket") ∷ []) (pos 1)
  check a.connect_ok (complained (codes "connect") ∷ []) (pos 1)
  act (connected fd (local socket_path))
  pure fd
