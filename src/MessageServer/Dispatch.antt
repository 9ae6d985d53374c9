-- ===== src/MessageServer/Dispatch.antt =====
-- Lab8/server.cpp: the server sends on what it receives, in order.
use unx511_unix_systems_prog.Prelude.{
  true, false, none, some, List, [], ◌∷◌, ◌++◌, map, ◌≡◌, refl, arith, Bool-cases, inl, inr, ap,
  ◌∙◌, sym,
}
use mathlib.Core.List.{append-nil, append_assoc, map-append}
use unx511_unix_systems_prog.MessageServer.{
  Message, Server, Event, receives, sends, interrupted, recv_round, take_front, main_round, step,
  run,
}

-- The message as it is sent on: to the client that it names.
abbrev pub redirect : Message → Message
redirect m = record m { mtype = m.dest }

-- What a history of the server's threads receives.
abbrev pub received : List Event → List Message
received [] = []
received (receives none ∷ es) = received es
received (receives (some m) ∷ es) = m ∷ received es
received (_ ∷ es) = received es

-- What is sent by one round, and what stays queued.
take_front_lem :
    (q : List Message) (s : Server)
    → s.message_queue ≡ q
    → (take_front q s).1 ++ map redirect (take_front q s).0.message_queue ≡ map redirect q
unfolding take_front
take_front_lem [] s e = rw e
take_front_lem (m ∷ rest) s e = refl

pub running_sends : (s : Server) → s.is_running ≡ true → step sends s ≡ take_front s.message_queue s
unfolding step main_round
running_sends s h = ground arith

pub stopped_sends : (s : Server) → s.is_running ≡ false → step sends s ≡ (s, [])
unfolding step
stopped_sends s h = ground arith

step_conserves :
    (e : Event) (s : Server)
    → (step e s).1 ++ map redirect (step e s).0.message_queue
      ≡ map redirect s.message_queue ++ map redirect (received (e ∷ []))
unfolding step recv_round main_round
step_conserves (receives none) s = sym (append-nil _)
step_conserves (receives (some m)) s = map-append redirect s.message_queue (m ∷ [])
step_conserves sends s = elim (Bool-cases s.is_running) [
  | inl running ↦
      ap (λ (r : Server × List Message). r.1 ++ map redirect r.0.message_queue)
        (running_sends s running)
      ∙ take_front_lem s.message_queue s refl
      ∙ sym (append-nil _)
  | inr stopped ↦
      ap (λ (r : Server × List Message). r.1 ++ map redirect r.0.message_queue)
        (stopped_sends s stopped)
      ∙ sym (append-nil _)
]
step_conserves interrupted s = sym (append-nil _)

received_cons : (e : Event) (es : List Event) → received (e ∷ es) ≡ received (e ∷ []) ++ received es
received_cons (receives none) es = refl
received_cons (receives (some m)) es = refl
received_cons sends es = refl
received_cons interrupted es = refl

-- Over any interleaving of the server's threads, what it has sent and then what is still queued are
-- the messages received, each addressed to the client that it names, in the order in which they were
-- received: none is lost, doubled or overtaken.
pub run_conserves :
    (es : List Event) (s : Server)
    → (run es s).1 ++ map redirect (run es s).0.message_queue
      ≡ map redirect (s.message_queue ++ received es)
unfolding run
run_conserves [] s = ap (map redirect) (sym (append-nil s.message_queue))
run_conserves (e ∷ es) s =
    let s' = (step e s).0 in
    let out = (step e s).1 in
    append_assoc out _ _
    ∙ ap (◌++◌ out) (run_conserves es s')
    ∙ ap (◌++◌ out) (map-append redirect s'.message_queue (received es))
    ∙ sym (append_assoc out _ _)
    ∙ ap (λ l. l ++ map redirect (received es)) (step_conserves e s)
    ∙ append_assoc (map redirect s.message_queue) (map redirect (received (e ∷ [])))
        (map redirect (received es))
    ∙ ap (◌++◌ (map redirect s.message_queue))
        (sym (map-append redirect (received (e ∷ [])) (received es)))
    ∙ ap (λ l. map redirect s.message_queue ++ map redirect l) (sym (received_cons e es))
    ∙ sym (map-append redirect s.message_queue (received (e ∷ es)))
