-- ===== src/MessageServer/System/Keeping.antt =====
-- Lab8: what a part of a run keeps, and that a round of a client keeps it.
use unx511_unix_systems_prog.Prelude.{
  ℕ, Bool, true, false, List, [], ◌∷◌, ◌++◌, ◌==◌, if◌then◌else◌, map, All, All-append, ◌≡◌, ==_iff,
  refl, subst, inl, inr, Bool-cases, put, put_same,
}
use unx511_unix_systems_prog.Prelude.Bytes.{codes, has_prefix}
use unx511_unix_systems_prog.MessageServer.{Message, Client, next_dest}
use unx511_unix_systems_prog.MessageServer.Clients
use unx511_unix_systems_prog.MessageServer.Clients.{
  IsClient, running_round, stopped_round, round_dest,
}
use unx511_unix_systems_prog.MessageServer.Queue.{MessageQueue}
use unx511_unix_systems_prog.MessageServer.System.{
  System, Event, client_sends, client_receives, server_receives, server_sends, Act, client_sent,
  client_printed, client_does,
}
use unx511_unix_systems_prog.MessageServer.System.Flows.{
  dispatched, printed, talk, talk-append, Flows, Flows-nil, Flows-append,
}
use unx511_unix_systems_prog.Prelude.Pipe.{collect, collect-append}
use unx511_unix_systems_prog.MessageServer.System.Ways.{collect_silent, prints-Flows, asks-Flows}
use unx511_unix_systems_prog.MessageServer.System.Typing.{IsRequest, IsMail, IsTyped}
use unx511_unix_systems_prog.MessageServer.System.Typed.{asks-IsTyped}

-- The clients are numbered 1 to 3.
abbrev pub OfClients : Event → Type 0
OfClients (client_sends n pid) = IsClient n
OfClients (client_receives n) = IsClient n
OfClients server_receives = Unit
OfClients server_sends = Unit

-- What client n prints, as client t sees it.
printed-IsMail :
    (n t : ℕ) (ms : List Message)
    → All (IsMail n) ms
    → All (IsMail t) (collect (printed t) (map (client_printed n) ms))
printed-IsMail n t [] h = tt
printed-IsMail n t (m ∷ ms) h = elim (Bool-cases (n == t)) [
  | inl q ↦ rw q (subst (λ u. IsMail u m) ((==_iff n t).0 q) h.0, printed-IsMail n t ms h.1)
  | inr q ↦ rw q (printed-IsMail n t ms h.1)
]

module _ (k : MessageQueue) where
  -- A part of a run: the messages' ways, their types, and that the server never says "Quit".
  pub record Keeps (s : System k.Queue) (acts : List Act) (s' : System k.Queue) : Type 0 where
    pub flows : Flows k s acts s'
    pub typed : IsTyped k s'
    pub prints : (t : ℕ) → IsClient t → All (IsMail t) (collect (printed t) acts)
    pub spoken : talk (collect dispatched acts) ≡ collect dispatched acts

  pub Keeps-append :
      (s u v : System k.Queue) (xs ys : List Act)
      → Keeps s xs u
      → Keeps u ys v
      → Keeps s (xs ++ ys) v
  Keeps-append s u v xs ys h h' = record {
    flows = Flows-append k s u v xs ys h.flows h'.flows;
    typed = h'.typed;
    prints = λ t c.
        rw (collect-append (printed t) xs ys)
          (All-append (IsMail t) (collect (printed t) xs) _ (h.prints t c) (h'.prints t c));
    spoken =
        rw
          (
            collect-append dispatched xs ys,
            talk-append (collect dispatched xs) (collect dispatched ys),
            h.spoken,
            h'.spoken,
          )
          refl;
  }

  -- Nothing happens.
  pub idles : (s : System k.Queue) → IsTyped k s → Keeps s [] s
  idles s v = record { flows = Flows-nil k s; typed = v; prints = λ t c. tt; spoken = refl }

  -- A step under a test.
  pub if-Keeps :
      (b : Bool) (r : System k.Queue × List Act) (s : System k.Queue)
      → (b ≡ true → Keeps s r.1 r.0)
      → IsTyped k s
      → Keeps s (if b then r else (s, [])).1 (if b then r else (s, [])).0
  if-Keeps true r s h v = h refl
  if-Keeps false r s h v = idles s v

  client_rounds :
      (n : ℕ) (text : List ℕ) (s : System k.Queue)
      → IsClient n
      → has_prefix (codes "Quit") text ≡ false
      → (s.clients n).is_running ≡ true
      → IsTyped k s
      → let (s', acts) = client_does k n (Clients.step (Clients.rounds text) (s.clients n)) s in
        Keeps s acts s'
  unfolding client_does
  client_rounds n text s c q running v =
      let d = next_dest n (s.clients n).dest in
      let m : Message = record { mtype = 4; source = n; dest = d; buf = text } in
      let after : Client = record (s.clients n) { queue = []; dest = d } in
      let u : System k.Queue = record s { clients = put n after s.clients } in
      let ps = (s.clients n).queue in
      let shown = map (client_printed n) ps in
      let (good, other, new) = round_dest n (s.clients n).dest c in
      let request : IsRequest m = record { source = c; dest = good; other = other; no_quit = q } in
      let silent = λ (f : Act → List Message) (h : (w : Message) → f (client_printed n w) ≡ []).
        collect_silent f (client_printed n) h ps in
      rw (running_round text (s.clients n) n (s.clients n).dest running (v.numbers n) refl)
        (record {
          flows =
              Flows-append k s u (record u { queue = k.msgsnd m s.queue }) shown
                (client_sent m ∷ []) (prints-Flows k n after s refl) (asks-Flows k m u refl);
          typed = asks-IsTyped k n m after s refl request (v.numbers n) refl v;
          prints = λ t h. rw (collect-append (printed t) shown (client_sent m ∷ [])) (
              All-append (IsMail t) (collect (printed t) shown) []
                (printed-IsMail n t ps (v.mail n c)) tt);
          spoken =
              rw
                (
                  collect-append dispatched shown (client_sent m ∷ []),
                  silent dispatched (λ w. refl),
                )
                refl;
        })

  -- A round of a client's loop, whether it still runs or not.
  pub client_sends-Keeps :
      (n : ℕ) (text : List ℕ) (s : System k.Queue)
      → IsClient n
      → has_prefix (codes "Quit") text ≡ false
      → IsTyped k s
      → let (s', acts) = client_does k n (Clients.step (Clients.rounds text) (s.clients n)) s in
        Keeps s acts s'
  unfolding client_does
  client_sends-Keeps n text s c q v = elim (Bool-cases (s.clients n).is_running) [
    | inl running ↦ client_rounds n text s c q running v
    | inr stopped ↦
        rw (stopped_round text (s.clients n) stopped) (rw (put_same n s.clients) (idles s v))
  ]
