-- ===== src/MessageServer/System/Emptying.antt =====
-- Lab8: rounds that empty the server and the queue.
use unx511_unix_systems_prog.Prelude.{
  ℕ, suc, true, Option, none, some, List, [], ◌∷◌, ◌++◌, if◌then◌else◌, All, All-append,
  All-replicate, replicate, length, ◌≡◌, refl, sym, ap, subst, ◌∙◌, arith,
}
use mathlib.Core.List.{append-nil}
use unx511_unix_systems_prog.MessageServer
use unx511_unix_systems_prog.MessageServer.{Message, Server, Client, next_dest, quit_all}
use unx511_unix_systems_prog.MessageServer.Clients.{IsClient}
use unx511_unix_systems_prog.MessageServer.Dispatch.{redirect, running_sends}
use unx511_unix_systems_prog.MessageServer.Delivery.{of_type}
use unx511_unix_systems_prog.MessageServer.Queue.{MessageQueue, Receives}
use unx511_unix_systems_prog.MessageServer.System.{
  System, Event, client_receives, server_receives, server_sends, server_does, client_takes,
  server_takes, step, run,
}
use unx511_unix_systems_prog.MessageServer.System.Typing.{IsRequest}
use unx511_unix_systems_prog.MessageServer.System.Awake.{Awake, step-Awake}
use unx511_unix_systems_prog.MessageServer.System.Silence.{
  IsQuiet, length-zero, run-append, run-replicate,
}

module _ (k : MessageQueue) (t : ℕ) (c : IsClient t) where
  Requested : ℕ → System k.Queue → Type 0
  Requested n s = Awake k t s × (length (k.pending 4 s.queue) ≡ n)

  accepts_one :
      (n : ℕ) (o : Option (Message × k.Queue)) (s : System k.Queue)
      → Receives k.pending 4 s.queue o
      → length (k.pending 4 s.queue) ≡ suc n
      → length (k.pending 4 (server_takes k o s).0.queue) ≡ n
  unfolding server_takes
  accepts_one n none s h e = absurd (omega (arith, ap length h, e))
  accepts_one n (some (m, q)) s (here, others) e = omega (arith, ap length here, e)

  server_step :
      (s : System k.Queue)
      → s.server_receiving ≡ true
      → step k server_receives s ≡ server_takes k (k.msgrcv 4 s.queue) s
  unfolding step
  server_step s h = ap (λ b. if b then server_takes k (k.msgrcv 4 s.queue) s else (s, [])) h

  accepts_down :
      (n : ℕ) (s : System k.Queue) → Requested (suc n) s → Requested n (step k server_receives s).0
  unfolding Requested
  accepts_down n s (v, e) = (
    step-Awake k t server_receives s c tt v,
    ap (λ r. length (k.pending 4 r.0.queue)) (server_step s v.serving.1)
        ∙ accepts_one n (k.msgrcv 4 s.queue) s (k.msgrcv-Receives 4 s.queue) e,
  )

  -- No requests on the queue, and n in the server.
  Accepted : ℕ → System k.Queue → Type 0
  Accepted n s = Awake k t s × (k.pending 4 s.queue ≡ []) × (length s.server.message_queue ≡ n)

  dispatches_one :
      (n : ℕ) (ms : List Message) (s : System k.Queue)
      → All IsRequest ms
      → k.pending 4 s.queue ≡ []
      → length ms ≡ suc n
      → let s' = (server_does k (MessageServer.take_front ms s.server) s).0 in
        (k.pending 4 s'.queue ≡ []) × (length s'.server.message_queue ≡ n)
  unfolding server_does MessageServer.take_front
  dispatches_one n [] s r w e = absurd (omega (arith, e))
  dispatches_one n (m ∷ rest) s r w e =
      let unasked : of_type 4 (redirect m ∷ []) ≡ [] = ground (arith, r.0.dest) in
      (
        k.pending-msgsnd 4 (redirect m) s.queue
            ∙ ap (◌++◌ (k.pending 4 s.queue)) unasked
            ∙ append-nil (k.pending 4 s.queue)
            ∙ w,
        omega (arith, e),
      )

  dispatches_down :
      (n : ℕ) (s : System k.Queue) → Accepted (suc n) s → Accepted n (step k server_sends s).0
  unfolding Accepted step
  dispatches_down n s (v, w, e) =
      let (w', e') =
        subst
          (λ r.
            let s' = (server_does k r s).0 in
            (k.pending 4 s'.queue ≡ []) × (length s'.server.message_queue ≡ n))
          (sym (running_sends s.server v.serving.0))
          (dispatches_one n s.server.message_queue s v.typed.accepted w e) in
      (step-Awake k t server_sends s c tt v, w', e')

  -- Nothing in the server or for it, and n messages on the queue for client t.
  unfoldable pub Sent : ℕ → System k.Queue → Type 0
  Sent n s =
      Awake k t s
      × (k.pending 4 s.queue ≡ [])
      × (s.server.message_queue ≡ [])
      × (length (k.pending t s.queue) ≡ n)

  takes_one :
      (n : ℕ) (o : Option (Message × k.Queue)) (s : System k.Queue)
      → Receives k.pending t s.queue o
      → k.pending 4 s.queue ≡ []
      → s.server.message_queue ≡ []
      → length (k.pending t s.queue) ≡ suc n
      → let s' = (client_takes k t o s).0 in
        (k.pending 4 s'.queue ≡ [])
        × (s'.server.message_queue ≡ [])
        × (length (k.pending t s'.queue) ≡ n)
  unfolding client_takes
  takes_one n none s h w q e = absurd (omega (arith, ap length h, e))
  takes_one n (some (m, q')) s (here, others) w q e =
      (others 4 (λ x. omega (arith, x, c)) ∙ w, q, omega (arith, ap length here, e))

  takes_down :
      (n : ℕ) (s : System k.Queue) → Sent (suc n) s → Sent n (step k (client_receives t) s).0
  unfolding Sent step
  takes_down n s (v, w, q, e) =
      let (w', q', e') =
        subst
          (λ b.
            let s' = (if b then client_takes k t (k.msgrcv t s.queue) s else (s, [])).0 in
            (k.pending 4 s'.queue ≡ [])
            × (s'.server.message_queue ≡ [])
            × (length (k.pending t s'.queue) ≡ n))
          (sym v.client.1)
          (takes_one n (k.msgrcv t s.queue) s (k.msgrcv-Receives t s.queue) w q e) in
      (step-Awake k t (client_receives t) s c c v, w', q', e')

  -- Rounds after which nothing is on its way to client t.
  pub drain :
      (s : System k.Queue)
      → Awake k t s
      → (zs : List Event) × All IsQuiet zs × Sent 0 (run k zs s).0
  unfolding Sent Requested Accepted
  drain s v =
      let n1 = length (k.pending 4 s.queue) in
      let es1 = replicate n1 server_receives in
      let s1 = (run k es1 s).0 in
      let (v1, w1) = run-replicate k server_receives Requested accepts_down n1 s (v, refl) in
      let n2 = length s1.server.message_queue in
      let es2 = replicate n2 server_sends in
      let s2 = (run k es2 s1).0 in
      let (v2, w2, q2) =
        run-replicate k server_sends Accepted dispatches_down n2 s1 (v1, length-zero _ w1, refl) in
      let n3 = length (k.pending t s2.queue) in
      let es3 = replicate n3 (client_receives t) in
      let s3 = (run k es3 s2).0 in
      let last =
        run-replicate k (client_receives t) Sent takes_down n3 s2
          (v2, w2, length-zero _ q2, refl) in
      let states : (run k (es1 ++ (es2 ++ es3)) s).0 ≡ s3 =
        ap (λ r. r.0) (run-append k es1 (es2 ++ es3) s) ∙ ap (λ r. r.0) (run-append k es2 es3 s1) in
      (
        es1 ++ (es2 ++ es3),
        All-append IsQuiet es1 (es2 ++ es3) (All-replicate IsQuiet n1 server_receives (tt, refl)) (
            All-append IsQuiet es2 es3 (All-replicate IsQuiet n2 server_sends (tt, refl))
              (All-replicate IsQuiet n3 (client_receives t) (c, refl))),
        subst (Sent 0) (sym states) last,
      )
