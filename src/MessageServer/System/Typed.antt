-- ===== src/MessageServer/System/Typed.antt =====
-- Lab8: each step of the system keeps to the kinds of messages.
use unx511_unix_systems_prog.Prelude.{
  ℕ, true, some, List, [], ◌∷◌, ◌==◌, All, All-append, ◌≡◌, subst, ◌∙◌, arith, inl, inr, Bool-cases,
  ==_iff, put, put_at,
}
use unx511_unix_systems_prog.Prelude.Bytes.{codes, has_prefix}
use unx511_unix_systems_prog.MessageServer
use unx511_unix_systems_prog.MessageServer.{Message, Server, Client, initial, client, next_dest}
use unx511_unix_systems_prog.MessageServer.Clients
use unx511_unix_systems_prog.MessageServer.Clients.{
  IsClient, running_round, stopped_round, quit_receive, kept_receive, round_dest, receiving_keeps,
}
use unx511_unix_systems_prog.MessageServer.Dispatch.{redirect}
use unx511_unix_systems_prog.MessageServer.Queue.{MessageQueue, Receives}
use unx511_unix_systems_prog.MessageServer.System.{System, send_all}
use unx511_unix_systems_prog.MessageServer.System.Typing.{
  IsRequest, IsMail, All-sent, All-taken, IsTyped,
}

module _ (k : MessageQueue) where
  pub asks-IsTyped :
      (n : ℕ) (m : Message) (c : Client) (s : System k.Queue)
      → m.mtype ≡ 4
      → IsRequest m
      → c.number ≡ n
      → c.queue ≡ []
      → IsTyped k s
      → IsTyped k (record s { queue = send_all k (m ∷ []) s.queue; clients = put n c s.clients })
  asks-IsTyped n m c s e r number queue v = record {
    numbers = put_at (λ t d. d.number ≡ t) n c s.clients number v.numbers;
    requests = All-sent k 4 IsRequest (m ∷ []) s.queue v.requests ((λ q. r), tt);
    accepted = v.accepted;
    letters = λ t h.
        All-sent k t (IsMail t) (m ∷ []) s.queue (v.letters t h)
          ((λ q. absurd (omega (arith, e, q, h))), tt);
    mail =
        put_at (λ t d. IsClient t → All (IsMail t) d.queue) n c s.clients (λ h. rw queue tt) v.mail;
  }

  pub dispatches-IsTyped :
      (m : Message) (rest : List Message) (s : System k.Queue)
      → s.server.message_queue ≡ m ∷ rest
      → IsTyped k s
      → IsTyped k (record s {
        queue = send_all k (redirect m ∷ []) s.queue;
        server = record s.server { message_queue = rest };
      })
  dispatches-IsTyped m rest s e v =
      let (r, rs) : IsRequest m × All IsRequest rest = subst (All IsRequest) e v.accepted in
      let sent : IsRequest (redirect m) = record {
        source = r.source;
        dest = r.dest;
        other = r.other;
        no_quit = r.no_quit;
      } in
      record {
        numbers = v.numbers;
        requests = All-sent k 4 IsRequest (redirect m ∷ []) s.queue v.requests ((λ q. sent), tt);
        accepted = rs;
        letters = λ t h.
            All-sent k t (IsMail t) (redirect m ∷ []) s.queue (v.letters t h)
              ((λ q. (sent, q)), tt);
        mail = v.mail;
      }

  pub accepts-IsTyped :
      (m : Message) (q : k.Queue) (s : System k.Queue)
      → Receives k.pending 4 s.queue (some (m, q))
      → IsTyped k s
      → IsTyped k (record s {
        queue = q;
        server = (MessageServer.step (MessageServer.receives (some m)) s.server).0;
        server_receiving = s.server.is_running;
      })
  unfolding MessageServer.step MessageServer.recv_round
  accepts-IsTyped m q s (here, others) v =
      let (r, rs) = All-taken k 4 IsRequest m s.queue q here v.requests in
      record {
        numbers = v.numbers;
        requests = rs;
        accepted = All-append IsRequest s.server.message_queue (m ∷ []) v.accepted (r, tt);
        letters = λ t h. rw (others t (λ e. omega (arith, e, h))) (v.letters t h);
        mail = v.mail;
      }

  keeps-IsMail :
      (t : ℕ) (m : Message) (c : Client)
      → IsMail t m
      → c.receiving ≡ true
      → All (IsMail t) c.queue
      → All (IsMail t) (Clients.step (Clients.receives m) c).0.queue
  keeps-IsMail t m c letter r h = elim (Bool-cases (has_prefix (codes "Quit") m.buf)) [
    | inl q ↦ rw (quit_receive m c r q) h
    | inr q ↦ rw (kept_receive m c r q) (All-append (IsMail t) c.queue (m ∷ []) h (letter, tt))
  ]

  pub takes-IsTyped :
      (n : ℕ) (m : Message) (q : k.Queue) (s : System k.Queue)
      → IsClient n
      → (s.clients n).receiving ≡ true
      → Receives k.pending n s.queue (some (m, q))
      → IsTyped k s
      → IsTyped k (record s {
        queue = q;
        clients = put n (Clients.step (Clients.receives m) (s.clients n)).0 s.clients;
      })
  takes-IsTyped n m q s c r (here, others) v =
      let (letter, rest) = All-taken k n (IsMail n) m s.queue q here (v.letters n c) in
      record {
        numbers =
            put_at (λ t d. d.number ≡ t) n _ s.clients
              ((receiving_keeps m (s.clients n)).0 ∙ v.numbers n) v.numbers;
        requests = rw (others 4 (λ e. omega (arith, e, c))) v.requests;
        accepted = v.accepted;
        letters = λ t h. elim (Bool-cases (n == t)) [
          | inl e ↦ subst (λ u. All (IsMail u) (k.pending u q)) ((==_iff n t).0 e) rest
          | inr e ↦ rw (others t (λ same. ground (arith, e, same))) (v.letters t h)
        ];
        mail =
            put_at (λ t d. IsClient t → All (IsMail t) d.queue) n _ s.clients
              (λ h. keeps-IsMail n m (s.clients n) letter r (v.mail n c)) v.mail;
      }
