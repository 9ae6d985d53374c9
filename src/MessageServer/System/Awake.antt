-- ===== src/MessageServer/System/Awake.antt =====
-- Lab8: the server and one client go on.
use unx511_unix_systems_prog.Prelude.{
  ℕ, Bool, true, false, Option, none, some, List, [], ◌∷◌, ◌==◌, if◌then◌else◌, All, ◌≡◌, ==_iff,
  refl, sym, ap, subst, ◌∙◌, inl, inr, Bool-cases, put,
}
use unx511_unix_systems_prog.Prelude.Bytes.{codes, has_prefix}
use unx511_unix_systems_prog.MessageServer
use unx511_unix_systems_prog.MessageServer.{Message, Server, Client}
use unx511_unix_systems_prog.MessageServer.Clients
use unx511_unix_systems_prog.MessageServer.Clients.{
  IsClient, running_round, stopped_round, kept_receive,
}
use unx511_unix_systems_prog.MessageServer.Dispatch.{running_sends}
use unx511_unix_systems_prog.MessageServer.Queue.{MessageQueue, Receives}
use unx511_unix_systems_prog.MessageServer.System.{
  System, Event, client_sends, client_receives, server_receives, server_sends, Act, text_of, start,
  client_does, server_does, client_takes, server_takes, step,
}
use unx511_unix_systems_prog.MessageServer.System.Typing.{IsMail, IsTyped, start-IsTyped}
use unx511_unix_systems_prog.MessageServer.System.Rounds.{step-Keeps}
use unx511_unix_systems_prog.MessageServer.System.Keeping.{OfClients}

abbrev IsAwake : Client → Type 0
IsAwake c = (c.is_running ≡ true) × (c.receiving ≡ true)

round-IsAwake :
    (text : List ℕ) (c : Client) → IsAwake c → IsAwake (Clients.step (Clients.rounds text) c).0
round-IsAwake text c h = rw (running_round text c c.number c.dest h.0 refl refl) h

receive-IsAwake :
    (m : Message) (c : Client)
    → has_prefix (codes "Quit") m.buf ≡ false
    → IsAwake c
    → IsAwake (Clients.step (Clients.receives m) c).0
receive-IsAwake m c q (running, receiving) = rw (kept_receive m c receiving q) (running, running)

-- A server that is running and has its receive thread.
abbrev IsServing : {Q : Type 0} → System Q → Type 0
IsServing s = (s.server.is_running ≡ true) × (s.server_receiving ≡ true)

module _ (k : MessageQueue) (t : ℕ) where
  pub record Awake (s : System k.Queue) : Type 0 where
    pub serving : IsServing s
    pub client : IsAwake (s.clients t)
    pub typed : IsTyped k s

  -- Another client's step, or a step of client t itself that leaves it awake.
  put-IsAwake :
      (n : ℕ) (c : Client) (f : ℕ → Client)
      → (n ≡ t → IsAwake c)
      → IsAwake (f t)
      → IsAwake (put n c f t)
  put-IsAwake n c f h h' = elim (Bool-cases (n == t)) [
    | inl q ↦ rw q (h ((==_iff n t).0 q))
    | inr q ↦ rw q h'
  ]

  sends-Awake :
      (n : ℕ) (text : List ℕ) (s : System k.Queue)
      → IsServing s
      → IsAwake (s.clients t)
      → let s' = (client_does k n (Clients.step (Clients.rounds text) (s.clients n)) s).0 in
        IsServing s' × IsAwake (s'.clients t)
  unfolding client_does
  sends-Awake n text s v h = (
    v,
    put-IsAwake n _ s.clients
        (λ e. round-IsAwake text (s.clients n) (subst (λ u. IsAwake (s.clients u)) (sym e) h)) h,
  )

  takes-Awake :
      (n : ℕ) (o : Option (Message × k.Queue)) (s : System k.Queue)
      → IsClient t
      → Receives k.pending n s.queue o
      → Awake s
      → let s' = (client_takes k n o s).0 in IsServing s' × IsAwake (s'.clients t)
  unfolding client_takes
  takes-Awake n none s c r v = (v.serving, v.client)
  takes-Awake n (some (m, q)) s c (here, others) v = (
    v.serving,
    put-IsAwake n _ s.clients
        (λ e.
          let mine : All (IsMail t) (m ∷ k.pending n q) =
            subst (All (IsMail t)) (ap (λ u. k.pending u s.queue) (sym e) ∙ here)
              (v.typed.letters t c) in
          receive-IsAwake m (s.clients n) mine.0.0.no_quit
            (subst (λ u. IsAwake (s.clients u)) (sym e) v.client))
        v.client,
  )

  accepts-Awake :
      (o : Option (Message × k.Queue)) (s : System k.Queue)
      → IsServing s
      → IsAwake (s.clients t)
      → let s' = (server_takes k o s).0 in IsServing s' × IsAwake (s'.clients t)
  unfolding server_takes MessageServer.step MessageServer.recv_round
  accepts-Awake none s v h = (v, h)
  accepts-Awake (some (m, q)) s (running, receiving) h = ((running, running), h)

  dispatches-Awake :
      (ms : List Message) (s : System k.Queue)
      → IsServing s
      → IsAwake (s.clients t)
      → let s' = (server_does k (MessageServer.take_front ms s.server) s).0 in
        IsServing s' × IsAwake (s'.clients t)
  unfolding server_does MessageServer.take_front
  dispatches-Awake [] s v h = (v, h)
  dispatches-Awake (m ∷ rest) s v h = (v, h)

  -- A step under a test.
  if_awake :
      (b : Bool) (r : System k.Queue × List Act) (s : System k.Queue)
      → IsServing s × IsAwake (s.clients t)
      → (b ≡ true → IsServing r.0 × IsAwake (r.0.clients t))
      → let s' = (if b then r else (s, [])).0 in IsServing s' × IsAwake (s'.clients t)
  if_awake true r s h h' = h' refl
  if_awake false r s h h' = h

  goes_on :
      (e : Event) (s : System k.Queue)
      → IsClient t
      → Awake s
      → let s' = (step k e s).0 in IsServing s' × IsAwake (s'.clients t)
  unfolding step
  goes_on (client_sends n pid) s c v = sends-Awake n (text_of n pid) s v.serving v.client
  goes_on (client_receives n) s c v =
      if_awake (s.clients n).receiving _ s (v.serving, v.client)
        (λ r. takes-Awake n (k.msgrcv n s.queue) s c (k.msgrcv-Receives n s.queue) v)
  goes_on server_receives s c v =
      if_awake s.server_receiving _ s (v.serving, v.client)
        (λ r. accepts-Awake (k.msgrcv 4 s.queue) s v.serving v.client)
  goes_on server_sends s c v =
      subst (λ r. let s' = (server_does k r s).0 in IsServing s' × IsAwake (s'.clients t))
        (sym (running_sends s.server v.serving.0))
        (dispatches-Awake s.server.message_queue s v.serving v.client)

  pub step-Awake :
      (e : Event) (s : System k.Queue) → IsClient t → OfClients e → Awake s → Awake (step k e s).0
  step-Awake e s c o v =
      let (serving, client) = goes_on e s c v in
      record { serving = serving; client = client; typed = (step-Keeps k e s o v.typed).typed }

  pub start-Awake : Awake (start k)
  start-Awake = record { serving = (refl, refl); client = (refl, refl); typed = start-IsTyped k }
