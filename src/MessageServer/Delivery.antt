-- ===== src/MessageServer/Delivery.antt =====
-- Lab8: the messages that one client gets out of a history of the server.
use unx511_unix_systems_prog.Prelude.{
  ℕ, List, [], ◌∷◌, ◌++◌, map, ◌==◌, leb, ◌&&◌, if◌then◌else◌, ◌≡◌, refl, arith, ap, ◌∙◌, sym,
}
use unx511_unix_systems_prog.MessageServer.{
  Message, initial, Event, run, session, quit_all, quit_message,
}
use unx511_unix_systems_prog.MessageServer.Dispatch.{redirect, received, run_conserves}

-- What msgrcv takes out for one type, in the queue's order.
abbrev pub of_type : ℕ → List Message → List Message
of_type t [] = []
of_type t (m ∷ ms) = let rest = of_type t ms in if m.mtype == t then m ∷ rest else rest

-- The messages that name a client.
abbrev pub naming : ℕ → List Message → List Message
naming d [] = []
naming d (m ∷ ms) = let rest = naming d ms in if m.dest == d then m ∷ rest else rest

pub of_type-append :
    (t : ℕ) (ms ns : List Message) → of_type t (ms ++ ns) ≡ of_type t ms ++ of_type t ns
of_type-append t [] ns = refl
of_type-append t (m ∷ ms) ns = ground (arith, of_type-append t ms ns)

pub of_type-redirect :
    (t : ℕ) (ms : List Message) → of_type t (map redirect ms) ≡ map redirect (naming t ms)
of_type-redirect t [] = refl
of_type-redirect t (m ∷ ms) = ground (arith, of_type-redirect t ms)

farewell_to :
    (t : ℕ) → of_type t quit_all ≡ (if leb 1 t && leb t 3 then quit_message t ∷ [] else [])
unfolding quit_all quit_message
farewell_to t = ground arith

-- Of all that the server sends in a session, a client gets just the messages that name it, in the
-- order in which the server received them (those that it does not get are still in the server's queue,
-- behind the ones that it got), and then one "Quit" if it is one of the three clients.
pub client_gets :
    (t : ℕ) (es : List Event)
    → let (s, sent) = run es initial in
      (of_type t sent ++ of_type t (map redirect s.message_queue)
        ≡ map redirect (naming t (received es)))
      × (of_type t (session es)
          ≡ of_type t sent ++ (if leb 1 t && leb t 3 then quit_message t ∷ [] else []))
unfolding session
client_gets t es =
    let (s, sent) = run es initial in
    (
      sym (of_type-append t sent (map redirect s.message_queue))
          ∙ ap (of_type t) (run_conserves es initial)
          ∙ of_type-redirect t (received es),
      of_type-append t sent quit_all ∙ ap (◌++◌ (of_type t sent)) (farewell_to t),
    )
