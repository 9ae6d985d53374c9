-- ===== src/MessageServer/System/Rounds.antt =====
-- Lab8: the steps of the system and their runs, with all that they keep.
use unx511_unix_systems_prog.Prelude.{
  ℕ, true, Option, none, some, List, [], ◌∷◌, All, ◌≡◌, refl, subst, inl, inr, Bool-cases,
}
use unx511_unix_systems_prog.MessageServer
use unx511_unix_systems_prog.MessageServer.{Message, Server, Client, next_dest}
use unx511_unix_systems_prog.MessageServer.Clients.{IsClient}
use unx511_unix_systems_prog.MessageServer.Dispatch.{running_sends, stopped_sends}
use unx511_unix_systems_prog.MessageServer.Queue.{MessageQueue, Receives}
use unx511_unix_systems_prog.MessageServer.System.{
  System, Event, client_sends, client_receives, server_receives, server_sends, text_of, start,
  server_does, client_takes, server_takes, step, run,
}
use unx511_unix_systems_prog.MessageServer.System.Ways.{
  dispatches-Flows, accepts-Flows, takes-Flows,
}
use unx511_unix_systems_prog.MessageServer.System.Typing.{
  IsRequest, text_of-no_quit, IsTyped, start-IsTyped,
}
use unx511_unix_systems_prog.MessageServer.System.Typed.{
  dispatches-IsTyped, accepts-IsTyped, takes-IsTyped,
}
use unx511_unix_systems_prog.MessageServer.System.Keeping.{
  OfClients, Keeps, Keeps-append, idles, if-Keeps, client_sends-Keeps,
}

module _ (k : MessageQueue) where
  takes-Keeps :
      (n : ℕ) (o : Option (Message × k.Queue)) (s : System k.Queue)
      → IsClient n
      → (s.clients n).receiving ≡ true
      → Receives k.pending n s.queue o
      → IsTyped k s
      → Keeps k s (client_takes k n o s).1 (client_takes k n o s).0
  unfolding client_takes
  takes-Keeps n none s c r h v = idles k s v
  takes-Keeps n (some (m, q)) s c r h v = record {
    flows = takes-Flows k n m q s c r h;
    typed = takes-IsTyped k n m q s c r h v;
    prints = λ t d. tt;
    spoken = refl;
  }

  accepts-Keeps :
      (o : Option (Message × k.Queue)) (s : System k.Queue)
      → Receives k.pending 4 s.queue o
      → IsTyped k s
      → Keeps k s (server_takes k o s).1 (server_takes k o s).0
  unfolding server_takes
  accepts-Keeps none s h v = idles k s v
  accepts-Keeps (some (m, q)) s h v = record {
    flows = accepts-Flows k m q s h;
    typed = accepts-IsTyped k m q s h v;
    prints = λ t d. tt;
    spoken = refl;
  }

  dispatches-Keeps :
      (ms : List Message) (s : System k.Queue)
      → s.server.message_queue ≡ ms
      → IsTyped k s
      → let (s', acts) = server_does k (MessageServer.take_front ms s.server) s in Keeps k s acts s'
  unfolding server_does MessageServer.take_front
  dispatches-Keeps [] s e v = idles k s v
  dispatches-Keeps (m ∷ rest) s e v =
      let (r, rs) : IsRequest m × All IsRequest rest = subst (All IsRequest) e v.accepted in
      record {
        flows = dispatches-Flows k m rest s e r.dest;
        typed = dispatches-IsTyped k m rest s e v;
        prints = λ t d. tt;
        spoken = rw r.no_quit refl;
      }

  server_sends-Keeps :
      (s : System k.Queue)
      → IsTyped k s
      → let (s', acts) = server_does k (MessageServer.step MessageServer.sends s.server) s in
        Keeps k s acts s'
  server_sends-Keeps s v = elim (Bool-cases s.server.is_running) [
    | inl running ↦
        rw (running_sends s.server running) (dispatches-Keeps s.server.message_queue s refl v)
    | inr stopped ↦ rw (stopped_sends s.server stopped) (unfold server_does in idles k s v)
  ]

  pub step-Keeps :
      (e : Event) (s : System k.Queue)
      → OfClients e
      → IsTyped k s
      → Keeps k s (step k e s).1 (step k e s).0
  unfolding step
  step-Keeps (client_sends n pid) s c v =
      client_sends-Keeps k n (text_of n pid) s c (text_of-no_quit n pid) v
  step-Keeps (client_receives n) s c v =
      if-Keeps k (s.clients n).receiving _ s
        (λ r. takes-Keeps n (k.msgrcv n s.queue) s c r (k.msgrcv-Receives n s.queue) v) v
  step-Keeps server_receives s c v =
      if-Keeps k s.server_receiving _ s
        (λ r. accepts-Keeps (k.msgrcv 4 s.queue) s (k.msgrcv-Receives 4 s.queue) v) v
  step-Keeps server_sends s c v = server_sends-Keeps s v

  pub run-Keeps :
      (es : List Event) (s : System k.Queue)
      → All OfClients es
      → IsTyped k s
      → Keeps k s (run k es s).1 (run k es s).0
  unfolding run
  run-Keeps [] s c v = idles k s v
  run-Keeps (e ∷ es) s c v =
      let h = step-Keeps e s c.0 v in
      let s' = (step k e s).0 in
      Keeps-append k s s' (run k es s').0 (step k e s).1 (run k es s').1 h
        (run-Keeps es s' c.1 h.typed)

  pub start-Keeps :
      (es : List Event)
      → All OfClients es
      → Keeps k (start k) (run k es (start k)).1 (run k es (start k)).0
  start-Keeps es c = run-Keeps es (start k) c (start-IsTyped k)
