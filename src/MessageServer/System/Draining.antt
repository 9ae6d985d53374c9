-- ===== src/MessageServer/System/Draining.antt =====
-- Lab8: the rounds after which all that has been written to a client is printed.
use unx511_unix_systems_prog.Prelude.{
  ℕ, true, false, List, [], ◌∷◌, ◌++◌, ◌==◌, map, All, All-append, All-map, ◌≡◌, refl, sym, ap,
  subst, ◌∙◌, arith,
}
use mathlib.Core.List.{append-nil, append_assoc}
use unx511_unix_systems_prog.MessageServer.{Message, next_dest}
use unx511_unix_systems_prog.MessageServer.Clients.{IsClient, running_round}
use unx511_unix_systems_prog.MessageServer.Queue.{MessageQueue}
use unx511_unix_systems_prog.MessageServer.System.{
  System, Event, client_sends, client_sent, client_printed, text_of, start, client_does, step, run,
}
use unx511_unix_systems_prog.MessageServer.System.Flows.{asked, printed}
use unx511_unix_systems_prog.Prelude.Pipe.{collect, collect-append}
use unx511_unix_systems_prog.MessageServer.System.Ways.{collect_each}
use unx511_unix_systems_prog.MessageServer.System.Keeping.{OfClients}
use unx511_unix_systems_prog.MessageServer.System.Ordered.{mail_for, run_in_order}
use unx511_unix_systems_prog.MessageServer.System.Awake.{Awake, step-Awake, start-Awake}
use unx511_unix_systems_prog.MessageServer.System.Silence.{
  asks, IsQuiet, length-zero, run-append, run_silent,
}
use unx511_unix_systems_prog.MessageServer.System.Emptying.{Sent, drain}

module _ (k : MessageQueue) (t : ℕ) (c : IsClient t) where
  run-Awake :
      (es : List Event) (s : System k.Queue)
      → All OfClients es
      → Awake k t s
      → Awake k t (run k es s).0
  unfolding run
  run-Awake [] s o v = v
  run-Awake (e ∷ es) s o v = run-Awake es (step k e s).0 o.1 (step-Awake k t e s c o.0 v)

  -- A round of client t prints what it holds.
  last_round :
      (pid : ℕ) (s : System k.Queue)
      → Awake k t s
      → collect (printed t) (run k (client_sends t pid ∷ []) s).1 ≡ (s.clients t).queue
  unfolding run step client_does
  last_round pid s v =
      let ps = (s.clients t).queue in
      let d = next_dest t (s.clients t).dest in
      let m : Message = record { mtype = 4; source = t; dest = d; buf = text_of t pid } in
      let shown = map (client_printed t) ps in
      let same : (t == t) ≡ true = ground arith in
      rw
        (running_round (text_of t pid) (s.clients t) t (s.clients t).dest v.client.0
          (v.typed.numbers t) refl)
        (ap (collect (printed t)) (append-nil (shown ++ (client_sent m ∷ [])))
          ∙ collect-append (printed t) shown (client_sent m ∷ [])
          ∙ append-nil (collect (printed t) shown)
          ∙ collect_each (printed t) (client_printed t) (λ w. rw same refl) ps)

nothing_behind :
    (t : ℕ) (shown que inb mq wait : List Message)
    → inb ≡ []
    → mq ≡ []
    → wait ≡ []
    → shown ++ que ≡ shown ++ (que ++ (inb ++ mail_for t (mq ++ wait)))
nothing_behind t shown que inb mq wait a b d =
    let none_left : inb ++ mail_for t (mq ++ wait) ≡ [] = rw (a, b, d) refl in
    ap (◌++◌ shown) (sym (append-nil que) ∙ ap (◌++◌ que) (sym none_left))

-- What client t has printed after its last round, if nothing was on its way to it before.
all_printed :
    (k : MessageQueue) (es zs : List Event) (t pid : ℕ) (c : IsClient t)
    → All OfClients (es ++ zs)
    → All (λ e. asks e ≡ false) zs
    → Sent k t c 0 (run k zs (run k es (start k)).0).0
    → collect (printed t) (run k (es ++ (zs ++ (client_sends t pid ∷ []))) (start k)).1
      ≡ mail_for t (collect asked (run k es (start k)).1)
unfolding Sent
all_printed k es zs t pid c o a (v, w, q, e) =
    let last = client_sends t pid ∷ [] in
    let r1 = run k es (start k) in
    let r2 = run k zs r1.0 in
    let r3 = run k last r2.0 in
    let acts : (run k (es ++ (zs ++ last)) (start k)).1 ≡ r1.1 ++ (r2.1 ++ r3.1) =
      ap (λ r. r.1) (run-append k es (zs ++ last) (start k))
      ∙ ap (λ r. r1.1 ++ r.1) (run-append k zs last r1.0) in
    let ordered =
      subst
        (λ r.
          collect (printed t) r.1
            ++ ((r.0.clients t).queue
                ++ (k.pending t r.0.queue
                    ++ mail_for t (r.0.server.message_queue ++ k.pending 4 r.0.queue)))
          ≡ mail_for t (collect asked r.1))
        (run-append k es zs (start k)) (run_in_order k (es ++ zs) t o c) in
    ap (collect (printed t)) (acts ∙ sym (append_assoc r1.1 r2.1 r3.1))
    ∙ collect-append (printed t) (r1.1 ++ r2.1) r3.1
    ∙ ap (◌++◌ (collect (printed t) (r1.1 ++ r2.1))) (last_round k t c pid r2.0 v)
    ∙ nothing_behind t (collect (printed t) (r1.1 ++ r2.1)) _ _ _ _ (length-zero _ e) q w
    ∙ ordered
    ∙ ap (mail_for t) (
        collect-append asked r1.1 r2.1
        ∙ ap (◌++◌ (collect asked r1.1)) (run_silent k zs r1.0 a)
        ∙ append-nil (collect asked r1.1))

-- Over any message queue that does as msgsnd and msgrcv promise and always has room: after any schedule
-- of the server and the three clients, up to the first ctrl-C in one of them, there are further rounds
-- of the programs after which client t has printed all that had been written to it, in order.
pub run_delivers :
    (k : MessageQueue) (es : List Event) (t pid : ℕ)
    → All OfClients es
    → IsClient t
    → (zs : List Event) × All OfClients zs
      × (collect (printed t) (run k (es ++ zs) (start k)).1
          ≡ mail_for t (collect asked (run k es (start k)).1))
run_delivers k es t pid o c =
    let s = (run k es (start k)).0 in
    let v = run-Awake k t c es (start k) o (start-Awake k t) in
    let (zs, quiet, empty) = drain k t c s v in
    let ozs = All-map IsQuiet OfClients (λ e q. q.0) zs quiet in
    let last = client_sends t pid ∷ [] in
    (
      zs ++ last,
      All-append OfClients zs last ozs (c, tt),
      all_printed k es zs t pid c (All-append OfClients es zs o ozs)
          (All-map IsQuiet (λ e. asks e ≡ false) (λ e q. q.1) zs quiet) empty,
    )
