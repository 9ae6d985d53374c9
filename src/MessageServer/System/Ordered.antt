-- ===== src/MessageServer/System/Ordered.antt =====
-- Lab8: where every message of a run is, from the client that writes it to the one that prints it.
use unx511_unix_systems_prog.Prelude.{
  ℕ, List, [], ◌∷◌, ◌++◌, map, All, ◌≡◌, refl, sym, ap, ◌∙◌, arith,
}
use mathlib.Core.List.{append_assoc, map-append}
use unx511_unix_systems_prog.MessageServer.{Message}
use unx511_unix_systems_prog.MessageServer.Clients.{IsClient}
use unx511_unix_systems_prog.MessageServer.Dispatch.{redirect}
use unx511_unix_systems_prog.MessageServer.Delivery.{
  of_type, naming, of_type-append, of_type-redirect,
}
use unx511_unix_systems_prog.MessageServer.Queue.{MessageQueue}
use unx511_unix_systems_prog.MessageServer.System.{Event, start, run}
use unx511_unix_systems_prog.MessageServer.System.Flows.{
  asked, accepted, dispatched, taken, printed, talk, talk-append,
}
use unx511_unix_systems_prog.Prelude.Pipe.{collect}
use unx511_unix_systems_prog.MessageServer.System.Typing.{IsMail, IsTyped}
use unx511_unix_systems_prog.MessageServer.System.Rounds.{start-Keeps}
use unx511_unix_systems_prog.MessageServer.System.Keeping.{OfClients}

talk-of_type : (t : ℕ) (ms : List Message) → talk (of_type t ms) ≡ of_type t (talk ms)
talk-of_type t [] = refl
talk-of_type t (m ∷ ms) = ground (arith, talk-of_type t ms)

naming-append : (t : ℕ) (ms ns : List Message) → naming t (ms ++ ns) ≡ naming t ms ++ naming t ns
naming-append t [] ns = refl
naming-append t (m ∷ ms) ns = ground (arith, naming-append t ms ns)

-- The messages for client t, as they are sent on to it.
abbrev pub mail_for : ℕ → List Message → List Message
mail_for t ms = map redirect (naming t ms)

mail_for-append :
    (t : ℕ) (ms ns : List Message) → mail_for t (ms ++ ns) ≡ mail_for t ms ++ mail_for t ns
mail_for-append t ms ns =
    ap (map redirect) (naming-append t ms ns) ∙ map-append redirect (naming t ms) (naming t ns)

-- The ways in a row.
chain :
    (t : ℕ) (ask acc dis out tak pri que inb mq wait : List Message)
    → ask ≡ acc ++ wait
    → map redirect acc ≡ dis ++ map redirect mq
    → of_type t out ≡ tak ++ inb
    → talk tak ≡ pri ++ que
    → talk out ≡ dis
    → pri ++ (que ++ (talk inb ++ mail_for t (mq ++ wait))) ≡ mail_for t ask
chain t ask acc dis out tak pri que inb mq wait asking serving delivering keeping spoken =
    let sent : of_type t dis ≡ (pri ++ que) ++ talk inb =
      ap (of_type t) (sym spoken)
      ∙ sym (talk-of_type t out)
      ∙ ap talk delivering
      ∙ talk-append tak inb
      ∙ ap (λ l. l ++ talk inb) keeping in
    let served : mail_for t acc ≡ of_type t dis ++ mail_for t mq =
      sym (of_type-redirect t acc)
      ∙ ap (of_type t) serving
      ∙ of_type-append t dis (map redirect mq)
      ∙ ap (◌++◌ (of_type t dis)) (of_type-redirect t mq) in
    sym (
      ap (mail_for t) asking
      ∙ mail_for-append t acc wait
      ∙ ap (λ l. l ++ mail_for t wait) served
      ∙ append_assoc (of_type t dis) (mail_for t mq) (mail_for t wait)
      ∙ ap (λ l. l ++ (mail_for t mq ++ mail_for t wait)) sent
      ∙ append_assoc (pri ++ que) (talk inb) (mail_for t mq ++ mail_for t wait)
      ∙ append_assoc pri que (talk inb ++ (mail_for t mq ++ mail_for t wait))
      ∙ ap (λ l. pri ++ (que ++ (talk inb ++ l))) (sym (mail_for-append t mq wait)))

talk-mail : (t : ℕ) (ms : List Message) → All (IsMail t) ms → talk ms ≡ ms
talk-mail t [] h = refl
talk-mail t (m ∷ ms) h = rw h.0.0.no_quit (ap (◌∷◌ m) (talk-mail t ms h.1))

-- Over any message queue that does as msgsnd and msgrcv promise, and after any schedule of the server
-- and the three clients, up to the first ctrl-C in one of them: the messages that clients
-- have written to client t are, in the order in which they were put into the queue, those that t has
-- printed, those that it holds, those on the queue for it, those in the server and those on the queue
-- for the server. None is lost, doubled, overtaken or brought to another client.
pub run_in_order :
    (k : MessageQueue) (es : List Event) (t : ℕ)
    → All OfClients es
    → IsClient t
    → let (s, acts) = run k es (start k) in
      collect (printed t) acts
        ++ ((s.clients t).queue
            ++ (k.pending t s.queue ++ mail_for t (s.server.message_queue ++ k.pending 4 s.queue)))
      ≡ mail_for t (collect asked acts)
run_in_order k es t c h =
    let (s, acts) = run k es (start k) in
    let v = start-Keeps k es c in
    ap
      (λ l.
        collect (printed t) acts
        ++ ((s.clients t).queue
            ++ (l ++ mail_for t (s.server.message_queue ++ k.pending 4 s.queue))))
      (sym (talk-mail t (k.pending t s.queue) (v.typed.letters t h)))
    ∙ chain t (collect asked acts) (collect accepted acts) (collect dispatched acts)
        (collect dispatched acts) (collect (taken t) acts) (collect (printed t) acts)
        (s.clients t).queue (k.pending t s.queue) s.server.message_queue (k.pending 4 s.queue)
        (ap (λ l. l ++ collect asked acts) (sym (k.pending-fresh 4)) ∙ v.flows.asking.in_order)
        v.flows.serving.in_order
        (ap (λ l. l ++ of_type t (collect dispatched acts)) (sym (k.pending-fresh t))
          ∙ (v.flows.delivering t h).in_order)
        (v.flows.keeping t).in_order v.spoken

-- After any schedule of the server and the three clients, up to the first ctrl-C in one of them: what
-- waits for the server or in it is a text of one client for another that does not begin with "Quit";
-- what waits for a client is such a text for that client, as is what it holds or has printed.
pub run-IsTyped :
    (k : MessageQueue) (es : List Event)
    → All OfClients es
    → let (s, acts) = run k es (start k) in
      IsTyped k s × ((t : ℕ) → IsClient t → All (IsMail t) (collect (printed t) acts))
run-IsTyped k es c = let v = start-Keeps k es c in (v.typed, v.prints)
