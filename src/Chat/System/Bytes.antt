-- ===== src/Chat/System/Bytes.antt =====
-- Lab9: every byte that a client writes, from its write to the server's output.
use unx511_unix_systems_prog.Prelude.{
  ℕ, ◌≤◌, Bool, true, false, some, List, [], ◌∷◌, ◌++◌, ◌==◌, if◌then◌else◌, All, All-append,
  length, ◌≡◌, refl, sym, ap, subst, ◌∙◌, arith, Bool-cases, inl, inr, ==_iff,
}
use mathlib.Core.List.{append-nil, append_assoc}
use unx511_unix_systems_prog.Prelude.Pipe.{Pipe, Pipe-append, Pipe-nil, collect, collect-append}
use unx511_unix_systems_prog.Chat
use unx511_unix_systems_prog.Chat.{Server, Client, Effect, message}
use unx511_unix_systems_prog.Chat.Printing.{printed, received_by, step_prints}
use unx511_unix_systems_prog.Chat.Stream.{ByteStream}
use unx511_unix_systems_prog.Chat.System.{
  System, Event, client_moves, server_rounds, thread_reads, interrupted, Act, wrote, took, did,
  each_wrote, each_did, has_thread, buf_len, write_all, client_does, server_does, thread_takes,
  step, run, start,
}

-- The bytes that the client on a connection writes, and those that its thread reads.
abbrev pub written : ℕ → Act → List ℕ
written fd (wrote n text) = if n == fd then text else []
written fd _ = []

abbrev pub taken : ℕ → Act → List ℕ
taken fd (took n bytes) = if n == fd then bytes else []
taken fd _ = []

-- The reads that bring something, as texts, and what is shown after "Message: ".
abbrev pub texts : Act → List (List ℕ)
texts (took n (c ∷ bytes)) = (c ∷ bytes) ∷ []
texts _ = []

abbrev pub shown : Act → List (List ℕ)
shown (did (message text)) = text ∷ []
shown _ = []

abbrev FitsBuffer : List ℕ → Type 0
FitsBuffer text = length text ≤ 4096

shown-each_did : (out : List Effect) → collect shown (each_did out) ≡ printed out
shown-each_did [] = refl
shown-each_did (message text ∷ out) = ap (◌∷◌ text) (shown-each_did out)
shown-each_did (_ ∷ out) = shown-each_did out

-- What the server does shows nothing of the streams.
did_silent :
    {B : Type 0} (f : Act → List B)
    → ((e : Effect) → f (did e) ≡ [])
    → (out : List Effect) → collect f (each_did out) ≡ []
did_silent f h [] = refl
did_silent f h (e ∷ out) = rw (h e) (did_silent f h out)

wrote_silent :
    {B : Type 0} (f : Act → List B) (fd : ℕ)
    → ((text : List ℕ) → f (wrote fd text) ≡ [])
    → (ts : List (List ℕ)) → collect f (each_wrote fd ts) ≡ []
wrote_silent f fd h [] = refl
wrote_silent f fd h (t ∷ ts) = rw (h t) (wrote_silent f fd h ts)

module _ (k : ByteStream) where
  pub record Flows (s : System k.Stream) (acts : List Act) (s' : System k.Stream) : Type 0 where
    pub streaming :
        (fd : ℕ)
        → Pipe
            (k.unread (s.streams fd))
            (collect (written fd) acts)
            (collect (taken fd) acts)
            (k.unread (s'.streams fd))
    pub printing :
        Pipe s.server.message_queue
          (collect texts acts)
          (collect shown acts)
          s'.server.message_queue
    pub fitting : All FitsBuffer (collect texts acts)

  Flows-nil : (s : System k.Stream) → Flows s [] s
  Flows-nil s = record {
    streaming = λ fd. Pipe-nil (k.unread (s.streams fd));
    printing = Pipe-nil s.server.message_queue;
    fitting = tt;
  }

  Flows-append :
      (s u v : System k.Stream) (xs ys : List Act)
      → Flows s xs u
      → Flows u ys v
      → Flows s (xs ++ ys) v
  Flows-append s u v xs ys h h' = record {
    streaming = λ fd.
        rw (collect-append (written fd) xs ys, collect-append (taken fd) xs ys)
          (Pipe-append (h.streaming fd) (h'.streaming fd));
    printing =
        rw (collect-append texts xs ys, collect-append shown xs ys)
          (Pipe-append h.printing h'.printing);
    fitting =
        rw (collect-append texts xs ys)
          (All-append FitsBuffer (collect texts xs) (collect texts ys) h.fitting h'.fitting);
  }

  -- The bytes of some writes behind what was there.
  unread-write_all :
      (fd : ℕ) (ts : List (List ℕ)) (s : k.Stream)
      → k.unread (write_all k ts s) ≡ k.unread s ++ collect (written fd) (each_wrote fd ts)
  unread-write_all fd [] s = sym (append-nil (k.unread s))
  unread-write_all fd (t ∷ ts) s =
      let same : (fd == fd) ≡ true = ground arith in
      unread-write_all fd ts (k.write t s)
      ∙ ap (λ l. l ++ collect (written fd) (each_wrote fd ts)) (k.unread-write t s)
      ∙ append_assoc (k.unread s) t (collect (written fd) (each_wrote fd ts))
      ∙ ap (◌++◌ (k.unread s)) (rw same refl)

  client_does-Flows :
      (fd : ℕ) (c : Client) (ts : List (List ℕ)) (s : System k.Stream)
      → Flows s (client_does k fd (c, ts) s).1 (client_does k fd (c, ts) s).0
  unfolding client_does
  client_does-Flows fd c ts s = record {
    streaming = λ n. elim (Bool-cases (fd == n)) [
      | inl q ↦
          rw (q, wrote_silent (taken n) fd (λ t. refl) ts)
            (subst
              (λ m.
                Pipe (k.unread (s.streams m)) (collect (written m) (each_wrote fd ts)) []
                  (k.unread (write_all k ts (s.streams fd))))
              ((==_iff fd n).0 q)
              (record { in_order = sym (unread-write_all fd ts (s.streams fd)) }))
      | inr q ↦
          rw
            (
              wrote_silent (written n) fd (λ t. rw q refl) ts,
              wrote_silent (taken n) fd (λ t. refl) ts,
              q,
            )
            (Pipe-nil (k.unread (s.streams n)))
    ];
    printing =
        rw (wrote_silent texts fd (λ t. refl) ts, wrote_silent shown fd (λ t. refl) ts)
          (Pipe-nil s.server.message_queue);
    fitting = rw (wrote_silent texts fd (λ t. refl) ts) tt;
  }

  -- A step of the server in which no thread reads.
  server_does-Flows :
      (e : Chat.Event) (s : System k.Stream)
      → received_by e ≡ []
      → let (s', acts) = server_does k (Chat.step e s.server) s in Flows s acts s'
  unfolding server_does
  server_does-Flows e s silent =
      let out = (Chat.step e s.server).1 in
      record {
        streaming = λ fd.
            rw (did_silent (written fd) (λ x. refl) out, did_silent (taken fd) (λ x. refl) out)
              (Pipe-nil (k.unread (s.streams fd)));
        printing =
            rw (did_silent texts (λ x. refl) out, shown-each_did out)
              (record {
                in_order = sym (step_prints e s.server ∙ ap (◌++◌ s.server.message_queue) silent);
              });
        fitting = rw (did_silent texts (λ x. refl) out) tt;
      }

  texts-took :
      (fd : ℕ) (bytes : List ℕ)
      → collect texts (took fd bytes ∷ []) ≡ received_by (Chat.reads (some bytes))
  texts-took fd [] = refl
  texts-took fd (c ∷ bytes) = refl

  texts-FitsBuffer :
      (fd : ℕ) (bytes : List ℕ)
      → length bytes ≤ 4096
      → All FitsBuffer (collect texts (took fd bytes ∷ []))
  texts-FitsBuffer fd [] h = tt
  texts-FitsBuffer fd (c ∷ bytes) h = (h, tt)

  reads_shows_nothing :
      (bytes : List ℕ) (g : Server) → (Chat.step (Chat.reads (some bytes)) g).1 ≡ []
  unfolding Chat.step
  reads_shows_nothing [] g = refl
  reads_shows_nothing (c ∷ bytes) g = refl

  thread_takes-Flows :
      (fd : ℕ) (bytes : List ℕ) (rest : k.Stream) (s : System k.Stream)
      → bytes ++ k.unread rest ≡ k.unread (s.streams fd)
      → length bytes ≤ 4096
      → Flows s (thread_takes k fd (bytes, rest) s).1 (thread_takes k fd (bytes, rest) s).0
  unfolding thread_takes
  thread_takes-Flows fd bytes rest s e h = record {
    streaming = λ n. elim (Bool-cases (fd == n)) [
      | inl q ↦ rw q (
          subst (λ m. Pipe (k.unread (s.streams m)) [] (bytes ++ []) (k.unread rest))
            ((==_iff fd n).0 q)
            (record {
              in_order =
                  append-nil (k.unread (s.streams fd))
                  ∙ sym e
                  ∙ ap (λ l. l ++ k.unread rest) (sym (append-nil bytes));
            }))
      | inr q ↦ rw q (Pipe-nil (k.unread (s.streams n)))
    ];
    printing = record {
      in_order =
          ap (◌++◌ s.server.message_queue) (texts-took fd bytes)
          ∙ sym (step_prints (Chat.reads (some bytes)) s.server)
          ∙ ap
              (λ out. printed out ++ (Chat.step (Chat.reads (some bytes)) s.server).0.message_queue)
              (reads_shows_nothing bytes s.server);
    };
    fitting = texts-FitsBuffer fd bytes h;
  }

  if-Flows :
      (b : Bool) (r : System k.Stream × List Act) (s : System k.Stream)
      → Flows s r.1 r.0
      → Flows s (if b then r else (s, [])).1 (if b then r else (s, [])).0
  if-Flows true r s h = h
  if-Flows false r s h = Flows-nil s

  step-Flows : (e : Event) (s : System k.Stream) → Flows s (step k e s).1 (step k e s).0
  unfolding step
  step-Flows (client_moves fd m) s =
      client_does-Flows fd (Chat.move m (s.clients fd)).0 (Chat.move m (s.clients fd)).1 s
  step-Flows (server_rounds fd) s = server_does-Flows (Chat.rounds fd) s refl
  step-Flows (thread_reads fd available) s =
      let r = k.read buf_len available (s.streams fd) in
      if-Flows (has_thread fd s.server) _ s (
        thread_takes-Flows fd r.0 r.1 s (k.read_in_order buf_len available (s.streams fd))
          (k.length-read buf_len available (s.streams fd)))
  step-Flows interrupted s = server_does-Flows Chat.interrupted s refl

  run-Flows : (es : List Event) (s : System k.Stream) → Flows s (run k es s).1 (run k es s).0
  unfolding run
  run-Flows [] s = Flows-nil s
  run-Flows (e ∷ es) s =
      Flows-append s (step k e s).0 (run k es (step k e s).0).0 (step k e s).1
        (run k es (step k e s).0).1 (step-Flows e s) (run-Flows es (step k e s).0)

-- Over any streams that do as write and read promise, and after any schedule of the server, its threads
-- and the clients: the bytes that the thread of a connection has read and then those on their way
-- are what the client on it has written, none lost, doubled or overtaken, however the reads divide
-- them. The server shows, or still holds, just what the reads brought, one text for each, in the
-- order of the reads, none longer than the buffer.
pub run_bytes :
    (k : ByteStream) (junk : ℕ → List ℕ) (es : List Event) (fd : ℕ)
    → let (s, acts) = run k es (start k junk) in
      (collect (taken fd) acts ++ k.unread (s.streams fd) ≡ collect (written fd) acts)
      × (collect shown acts ++ s.server.message_queue ≡ collect texts acts)
      × All FitsBuffer (collect texts acts)
run_bytes k junk es fd =
    let (s, acts) = run k es (start k junk) in
    let v = run-Flows k es (start k junk) in
    (
      sym (
          ap (λ l. l ++ collect (written fd) acts) (sym k.unread-opened)
          ∙ (v.streaming fd).in_order),
      sym v.printing.in_order,
      v.fitting,
    )
