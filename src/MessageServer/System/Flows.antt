-- ===== src/MessageServer/System/Flows.antt =====
-- Lab8: the ways that messages take through the programs and the queue, each first in, first out.
use unx511_unix_systems_prog.Prelude.Pipe.{Pipe, Pipe-append, Pipe-nil, collect, collect-append}
use unx511_unix_systems_prog.Prelude.{
  ℕ, List, [], ◌∷◌, ◌++◌, ◌==◌, if◌then◌else◌, map, ◌≡◌, refl, arith,
}
use mathlib.Core.List.{map-append}
use unx511_unix_systems_prog.Prelude.Bytes.{codes, has_prefix}
use unx511_unix_systems_prog.MessageServer.{Message}
use unx511_unix_systems_prog.MessageServer.Clients.{IsClient}
use unx511_unix_systems_prog.MessageServer.Dispatch.{redirect}
use unx511_unix_systems_prog.MessageServer.Delivery.{of_type, of_type-append}
use unx511_unix_systems_prog.MessageServer.Queue.{MessageQueue}
use unx511_unix_systems_prog.MessageServer.System.{
  System, Act, client_sent, server_took, server_sent, client_took, client_printed,
}

abbrev pub asked : Act → List Message
asked (client_sent m) = m ∷ []
asked _ = []

abbrev pub accepted : Act → List Message
accepted (server_took m) = m ∷ []
accepted _ = []

abbrev pub dispatched : Act → List Message
dispatched (server_sent m) = m ∷ []
dispatched _ = []

abbrev pub taken : ℕ → Act → List Message
taken t (client_took n m) = if n == t then m ∷ [] else []
taken t _ = []

abbrev pub printed : ℕ → Act → List Message
printed t (client_printed n m) = if n == t then m ∷ [] else []
printed t _ = []

-- Without what begins with "Quit".
abbrev pub talk : List Message → List Message
talk [] = []
talk (m ∷ ms) = let rest = talk ms in if has_prefix (codes "Quit") m.buf then rest else m ∷ rest

pub talk-append : (ms ns : List Message) → talk (ms ++ ns) ≡ talk ms ++ talk ns
talk-append [] ns = refl
talk-append (m ∷ ms) ns = ground (arith, talk-append ms ns)

module _ (k : MessageQueue) where
  -- What a run of the system does on each way: from the clients to the server, in the server, from
  -- the server to a client, in a client.
  pub record Flows (s : System k.Queue) (acts : List Act) (s' : System k.Queue) : Type 0 where
    pub asking :
        Pipe
          (k.pending 4 s.queue)
          (collect asked acts)
          (collect accepted acts)
          (k.pending 4 s'.queue)
    pub serving :
        Pipe
          (map redirect s.server.message_queue)
          (map redirect (collect accepted acts))
          (collect dispatched acts)
          (map redirect s'.server.message_queue)
    pub delivering :
        (t : ℕ)
        → IsClient t
        → Pipe
            (k.pending t s.queue)
            (of_type t (collect dispatched acts))
            (collect (taken t) acts)
            (k.pending t s'.queue)
    pub keeping :
        (t : ℕ)
        → Pipe
            (s.clients t).queue
            (talk (collect (taken t) acts))
            (collect (printed t) acts)
            (s'.clients t).queue

  pub Flows-nil : (s : System k.Queue) → Flows s [] s
  Flows-nil s = record {
    asking = Pipe-nil (k.pending 4 s.queue);
    serving = Pipe-nil (map redirect s.server.message_queue);
    delivering = λ t h. Pipe-nil (k.pending t s.queue);
    keeping = λ t. Pipe-nil (s.clients t).queue;
  }

  pub Flows-append :
      (s u v : System k.Queue) (xs ys : List Act)
      → Flows s xs u
      → Flows u ys v
      → Flows s (xs ++ ys) v
  Flows-append s u v xs ys h h' = record {
    asking =
        rw (collect-append asked xs ys, collect-append accepted xs ys)
          (Pipe-append h.asking h'.asking);
    serving =
        rw
          (
            collect-append dispatched xs ys,
            collect-append accepted xs ys,
            map-append redirect (collect accepted xs) (collect accepted ys),
          )
          (Pipe-append h.serving h'.serving);
    delivering = λ t c.
        rw
          (
            collect-append dispatched xs ys,
            collect-append (taken t) xs ys,
            of_type-append t (collect dispatched xs) (collect dispatched ys),
          )
          (Pipe-append (h.delivering t c) (h'.delivering t c));
    keeping = λ t.
        rw
          (
            collect-append (taken t) xs ys,
            collect-append (printed t) xs ys,
            talk-append (collect (taken t) xs) (collect (taken t) ys),
          )
          (Pipe-append (h.keeping t) (h'.keeping t));
  }
