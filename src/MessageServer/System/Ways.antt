-- ===== src/MessageServer/System/Ways.antt =====
-- Lab8: what each step of the system does on the messages' ways.
use unx511_unix_systems_prog.Prelude.{
  ℕ, true, some, List, [], ◌∷◌, ◌++◌, ◌==◌, map, ◌≡◌, refl, sym, ap, subst, ◌∙◌, arith, inl, inr,
  Bool-cases, ==_iff, put,
}
use mathlib.Core.List.{append-nil, append_assoc, map-append}
use unx511_unix_systems_prog.Prelude.Bytes.{codes, has_prefix}
use unx511_unix_systems_prog.MessageServer
use unx511_unix_systems_prog.MessageServer.{Message, Server, Client}
use unx511_unix_systems_prog.MessageServer.Clients
use unx511_unix_systems_prog.MessageServer.Clients.{
  IsClient, running_round, stopped_round, quit_receive, kept_receive, round_dest,
}
use unx511_unix_systems_prog.MessageServer.Dispatch.{redirect}
use unx511_unix_systems_prog.MessageServer.Delivery.{of_type}
use unx511_unix_systems_prog.MessageServer.Queue.{MessageQueue, Receives}
use unx511_unix_systems_prog.MessageServer.System.{
  System, Act, client_sent, server_took, server_sent, client_took, client_printed, send_all,
}
use unx511_unix_systems_prog.MessageServer.System.Flows.{
  asked, accepted, dispatched, taken, printed, talk, Flows,
}
use unx511_unix_systems_prog.Prelude.Pipe.{collect}
use unx511_unix_systems_prog.Prelude.Pipe.{Pipe, Pipe-nil}

-- Acts that do not show in `f`, and acts that show as they are.
pub collect_silent :
    (f : Act → List Message) (g : Message → Act)
    → ((m : Message) → f (g m) ≡ [])
    → (ms : List Message) → collect f (map g ms) ≡ []
collect_silent f g h [] = refl
collect_silent f g h (m ∷ ms) = rw (h m) (collect_silent f g h ms)

pub collect_each :
    (f : Act → List Message) (g : Message → Act)
    → ((m : Message) → f (g m) ≡ m ∷ [])
    → (ms : List Message) → collect f (map g ms) ≡ ms
collect_each f g h [] = refl
collect_each f g h (m ∷ ms) = rw (h m) (ap (◌∷◌ m) (collect_each f g h ms))

module _ (k : MessageQueue) where
  pub pending-send_all :
      (t : ℕ) (ms : List Message) (q : k.Queue)
      → k.pending t (send_all k ms q) ≡ k.pending t q ++ of_type t ms
  pending-send_all t [] q = sym (append-nil (k.pending t q))
  pending-send_all t (m ∷ ms) q =
      pending-send_all t ms (k.msgsnd m q)
      ∙ ap (λ l. l ++ of_type t ms) (k.pending-msgsnd t m q)
      ∙ append_assoc (k.pending t q) (of_type t (m ∷ [])) (of_type t ms)
      ∙ ap (◌++◌ (k.pending t q)) (ground arith)

  -- Client n prints all that it has queued.
  pub prints-Flows :
      (n : ℕ) (c : Client) (s : System k.Queue)
      → c.queue ≡ []
      → Flows k s
          (map (client_printed n) (s.clients n).queue)
          (record s { clients = put n c s.clients })
  prints-Flows n c s e =
      let ps = (s.clients n).queue in
      let silent = λ (f : Act → List Message) (h : (m : Message) → f (client_printed n m) ≡ []).
        collect_silent f (client_printed n) h ps in
      record {
        asking = rw (silent asked (λ m. refl), silent accepted (λ m. refl)) (Pipe-nil _);
        serving = rw (silent accepted (λ m. refl), silent dispatched (λ m. refl)) (Pipe-nil _);
        delivering =
            λ t h. rw (silent dispatched (λ m. refl), silent (taken t) (λ m. refl)) (Pipe-nil _);
        keeping = λ t. elim (Bool-cases (n == t)) [
          | inl q ↦
              rw
                (
                  silent (taken t) (λ m. refl),
                  collect_each (printed t) (client_printed n) (λ m. rw q refl) ps,
                  q,
                )
                (record {
                  in_order =
                      append-nil (s.clients t).queue
                      ∙ ap (λ j. (s.clients j).queue) (sym ((==_iff n t).0 q))
                      ∙ sym (append-nil ps)
                      ∙ ap (◌++◌ ps) (sym e);
                })
          | inr q ↦
              rw (silent (taken t) (λ m. refl), silent (printed t) (λ m. rw q refl), q)
                (Pipe-nil (s.clients t).queue)
        ];
      }

  -- A client's message is put into the queue.
  pub asks-Flows :
      (m : Message) (s : System k.Queue)
      → m.mtype ≡ 4
      → Flows k s (client_sent m ∷ []) (record s { queue = k.msgsnd m s.queue })
  asks-Flows m s e =
      let mine : of_type 4 (m ∷ []) ≡ m ∷ [] = rw e refl in
      let others : (t : ℕ) → IsClient t → of_type t (m ∷ []) ≡ [] = λ t h. ground (arith, e, h) in
      record {
        asking = record {
          in_order = sym (k.pending-msgsnd 4 m s.queue ∙ ap (◌++◌ (k.pending 4 s.queue)) mine);
        };
        serving = Pipe-nil (map redirect s.server.message_queue);
        delivering = λ t h. record {
          in_order =
              sym (k.pending-msgsnd t m s.queue ∙ ap (◌++◌ (k.pending t s.queue)) (others t h));
        };
        keeping = λ t. Pipe-nil (s.clients t).queue;
      }

  -- The server sends on what stands at the front of its own queue.
  pub dispatches-Flows :
      (m : Message) (rest : List Message) (s : System k.Queue)
      → s.server.message_queue ≡ m ∷ rest
      → IsClient m.dest
      → Flows k s (server_sent (redirect m) ∷ []) (record s {
        queue = k.msgsnd (redirect m) s.queue;
        server = record s.server { message_queue = rest };
      })
  dispatches-Flows m rest s e d =
      let none_asked : of_type 4 (redirect m ∷ []) ≡ [] = ground (arith, d) in
      record {
        asking = record {
          in_order = sym (
              k.pending-msgsnd 4 (redirect m) s.queue ∙ ap (◌++◌ (k.pending 4 s.queue)) none_asked);
        };
        serving = record {
          in_order = append-nil (map redirect s.server.message_queue) ∙ ap (map redirect) e;
        };
        delivering = λ t h. record { in_order = sym (k.pending-msgsnd t (redirect m) s.queue) };
        keeping = λ t. Pipe-nil (s.clients t).queue;
      }

  pub accepts-Flows :
      (m : Message) (q : k.Queue) (s : System k.Queue)
      → Receives k.pending 4 s.queue (some (m, q))
      → Flows k s (server_took m ∷ []) (record s {
        queue = q;
        server = (MessageServer.step (MessageServer.receives (some m)) s.server).0;
        server_receiving = s.server.is_running;
      })
  unfolding MessageServer.step MessageServer.recv_round
  accepts-Flows m q s (here, others) = record {
    asking = record { in_order = append-nil (k.pending 4 s.queue) ∙ here };
    serving = record { in_order = sym (map-append redirect s.server.message_queue (m ∷ [])) };
    delivering = λ t h. record {
      in_order = append-nil (k.pending t s.queue) ∙ sym (others t (λ e. omega (arith, e, h)));
    };
    keeping = λ t. Pipe-nil (s.clients t).queue;
  }

  -- What client n's thread does to its queue with a message.
  keeps :
      (m : Message) (c : Client)
      → c.receiving ≡ true
      → Pipe c.queue (talk (m ∷ [])) [] (Clients.step (Clients.receives m) c).0.queue
  keeps m c r = elim (Bool-cases (has_prefix (codes "Quit") m.buf)) [
    | inl q ↦ rw (q, quit_receive m c r q) (Pipe-nil c.queue)
    | inr q ↦ rw (q, kept_receive m c r q) (record { in_order = refl })
  ]

  pub takes-Flows :
      (n : ℕ) (m : Message) (q : k.Queue) (s : System k.Queue)
      → IsClient n
      → (s.clients n).receiving ≡ true
      → Receives k.pending n s.queue (some (m, q))
      → Flows k s (client_took n m ∷ []) (record s {
        queue = q;
        clients = put n (Clients.step (Clients.receives m) (s.clients n)).0 s.clients;
      })
  takes-Flows n m q s c r (here, others) = record {
    asking = record {
      in_order = append-nil (k.pending 4 s.queue) ∙ sym (others 4 (λ e. omega (arith, e, c)));
    };
    serving = Pipe-nil (map redirect s.server.message_queue);
    delivering = λ t h. elim (Bool-cases (n == t)) [
      | inl e ↦ rw e (
          subst (λ u. Pipe (k.pending u s.queue) [] (m ∷ []) (k.pending u q)) ((==_iff n t).0 e)
            (record { in_order = append-nil (k.pending n s.queue) ∙ here }))
      | inr e ↦ rw e (record {
        in_order =
            append-nil (k.pending t s.queue) ∙ sym (others t (λ same. ground (arith, e, same)));
      })
    ];
    keeping = λ t. elim (Bool-cases (n == t)) [
      | inl e ↦ rw e (
          subst
            (λ u.
              Pipe (s.clients u).queue (talk (m ∷ [])) []
                (Clients.step (Clients.receives m) (s.clients n)).0.queue)
            ((==_iff n t).0 e) (keeps m (s.clients n) r))
      | inr e ↦ rw e (Pipe-nil (s.clients t).queue)
    ];
  }
