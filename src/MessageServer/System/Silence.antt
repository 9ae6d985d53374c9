-- ===== src/MessageServer/System/Silence.antt =====
-- Lab8: runs in parts, and steps that write nothing to a client.
use unx511_unix_systems_prog.Prelude.{
  ℕ, zero, suc, Bool, true, false, Option, none, some, List, [], ◌∷◌, ◌++◌, if◌then◌else◌, All,
  replicate, length, ◌≡◌, refl, sym, ap, ◌∙◌, arith,
}
use mathlib.Core.List.{append_assoc}
use unx511_unix_systems_prog.MessageServer
use unx511_unix_systems_prog.MessageServer.{Message, Server, Client, next_dest}
use unx511_unix_systems_prog.MessageServer.Queue.{MessageQueue}
use unx511_unix_systems_prog.MessageServer.System.{
  System, Event, client_sends, client_receives, server_receives, server_sends, Act, server_sent,
  server_does, client_takes, server_takes, step, run,
}
use unx511_unix_systems_prog.MessageServer.System.Flows.{asked}
use unx511_unix_systems_prog.Prelude.Pipe.{collect, collect-append}
use unx511_unix_systems_prog.MessageServer.System.Ways.{collect_silent}
use unx511_unix_systems_prog.MessageServer.System.Keeping.{OfClients}

-- A client's round is the only step that writes to another client.
abbrev pub asks : Event → Bool
asks (client_sends n pid) = true
asks _ = false

-- A step of clients 1 to 3 or of the server that writes nothing to another client.
abbrev pub IsQuiet : Event → Type 0
IsQuiet e = OfClients e × (asks e ≡ false)

pub length-zero : {A : Type 0} (xs : List A) → length xs ≡ 0 → xs ≡ []
length-zero [] h = refl
length-zero (x ∷ xs) h = absurd (omega arith)

module _ (k : MessageQueue) where
  pub run-append :
      (xs ys : List Event) (s : System k.Queue)
      → run k (xs ++ ys) s
        ≡ ((run k ys (run k xs s).0).0, (run k xs s).1 ++ (run k ys (run k xs s).0).1)
  unfolding run
  run-append [] ys s = refl
  run-append (e ∷ xs) ys s =
      ap (λ r. (r.0, (step k e s).1 ++ r.1)) (run-append xs ys (step k e s).0)
      ∙ ap (λ l. ((run k ys (run k xs (step k e s).0).0).0, l))
          (sym (append_assoc (step k e s).1 _ _))

  -- A count that each of some equal steps brings down by one.
  pub run-replicate :
      (e : Event) (P : ℕ → System k.Queue → Type 0)
      → ((n : ℕ) (s : System k.Queue) → P (suc n) s → P n (step k e s).0)
      → (n : ℕ) (s : System k.Queue) → P n s
      → P 0 (run k (replicate n e) s).0
  unfolding run
  run-replicate e P down zero s h = h
  run-replicate e P down (suc n) s h = run-replicate e P down n (step k e s).0 (down n s h)

  client_takes_silent :
      (n : ℕ) (o : Option (Message × k.Queue)) (s : System k.Queue)
      → collect asked (client_takes k n o s).1 ≡ []
  unfolding client_takes
  client_takes_silent n none s = refl
  client_takes_silent n (some (m, q)) s = refl

  server_takes_silent :
      (o : Option (Message × k.Queue)) (s : System k.Queue)
      → collect asked (server_takes k o s).1 ≡ []
  unfolding server_takes
  server_takes_silent none s = refl
  server_takes_silent (some (m, q)) s = refl

  if_silent :
      (b : Bool) (r : System k.Queue × List Act) (s : System k.Queue)
      → collect asked r.1 ≡ []
      → collect asked (if b then r else (s, [])).1 ≡ []
  if_silent true r s h = h
  if_silent false r s h = refl

  step_silent :
      (e : Event) (s : System k.Queue) → asks e ≡ false → collect asked (step k e s).1 ≡ []
  unfolding step server_does
  step_silent (client_sends n pid) s h = cc
  step_silent (client_receives n) s h =
      if_silent (s.clients n).receiving _ s (client_takes_silent n (k.msgrcv n s.queue) s)
  step_silent server_receives s h =
      if_silent s.server_receiving _ s (server_takes_silent (k.msgrcv 4 s.queue) s)
  step_silent server_sends s h =
      collect_silent asked server_sent (λ m. refl)
        (MessageServer.step MessageServer.sends s.server).1

  pub run_silent :
      (es : List Event) (s : System k.Queue)
      → All (λ e. asks e ≡ false) es
      → collect asked (run k es s).1 ≡ []
  unfolding run
  run_silent [] s h = refl
  run_silent (e ∷ es) s h =
      collect-append asked (step k e s).1 (run k es (step k e s).0).1
      ∙ ap (λ l. l ++ collect asked (run k es (step k e s).0).1) (step_silent e s h.0)
      ∙ run_silent es (step k e s).0 h.1
