-- ===== src/MessageServer/Clients.antt =====
-- Lab8/client1.cpp to client3.cpp: whom a client writes to, and what it prints.
use unx511_unix_systems_prog.Prelude.{
  ℕ, zero, suc, ◌≤◌, Bool, true, false, List, [], ◌∷◌, ◌++◌, if◌then◌else◌, replicate, ◌≡◌, refl,
  ◌≢◌, arith, Bool-cases, inl, inr, ap, ◌∙◌, sym, subst,
}
use mathlib.Core.List.{append-nil, append_assoc}
use unx511_unix_systems_prog.Prelude.Bytes.{codes, has_prefix}
use unx511_unix_systems_prog.MessageServer.{
  Message, Client, client_receives, client_round, next_dest,
}

abbrev pub IsClient : ℕ → Type 0
IsClient n = (1 ≤ n) × (n ≤ 3)

-- The receive thread's and the main loop's rounds of one client, and ctrl-C.
pub data Event : Type 0 where
  receives : Message → Event
  rounds : List ℕ → Event
  interrupted : Event

-- A round of the receive thread ends with the test of is_running: a thread that waits in msgrcv when
-- ctrl-C comes takes one more message.
abbrev receive_round : Message → Client → Client
receive_round m c = let c' = client_receives m c in record c' { receiving = c'.is_running }

abbrev pub shutdown_handler : Client → Client
shutdown_handler c = record c { is_running = false }

-- The result: the client, what is printed, what is sent.
unfoldable pub step : Event → Client → Client × List Message × List Message
step (receives m) c = (if c.receiving then receive_round m c else c, [], [])
step interrupted c = (shutdown_handler c, [], [])
step (rounds text) c =
    if c.is_running
    then (let (c', printed, m) = client_round text c in (c', printed, m ∷ []))
    else (c, [], [])

unfoldable pub run : List Event → Client → Client × List Message × List Message
run [] c = (c, [], [])
run (e ∷ es) c =
    let (c', printed, sent) = step e c in
    let (c'', printed', sent') = run es c' in (c'', printed ++ printed', sent ++ sent')

-- From a client's dest on: the two others in turn.
abbrev pub Alternates : ℕ → ℕ → List Message → Type 0
Alternates n dest [] = Unit
Alternates n dest (m ∷ ms) =
    (m.mtype ≡ 4)
    × (m.source ≡ n)
    × IsClient m.dest
    × (m.dest ≢ n)
    × (m.dest ≢ dest)
    × Alternates n m.dest ms

pub round_dest :
    (n dest : ℕ)
    → IsClient n
    → IsClient (next_dest n dest) × (next_dest n dest ≢ n) × (next_dest n dest ≢ dest)
unfolding next_dest
round_dest n dest h = (ground arith, (λ e. ground arith), λ e. ground arith)

pub running_round :
    (text : List ℕ) (c : Client) (n d : ℕ)
    → c.is_running ≡ true
    → c.number ≡ n
    → c.dest ≡ d
    → step (rounds text) c ≡ (
      record c { queue = []; dest = next_dest n d },
      c.queue,
      record { mtype = 4; source = n; dest = next_dest n d; buf = text } ∷ [],
    )
unfolding step client_round
running_round text c n d h en ed = ground arith

pub stopped_round :
    (text : List ℕ) (c : Client) → c.is_running ≡ false → step (rounds text) c ≡ (c, [], [])
unfolding step
stopped_round text c h = ground arith

pub interrupt_step : (c : Client) → step interrupted c ≡ (record c { is_running = false }, [], [])
unfolding step
interrupt_step c = refl

pub receiving_keeps :
    (m : Message) (c : Client)
    → let (c', printed, sent) = step (receives m) c in
      (c'.number ≡ c.number) × (c'.dest ≡ c.dest) × (printed ≡ []) × (sent ≡ [])
unfolding step client_receives
receiving_keeps m c = ground arith

-- Whatever a client receives in between, it sends its messages to the server under its own number,
-- and names the two other clients in turn: never itself, never the same one twice in a row.
pub run-Alternates :
    (es : List Event) (c : Client) (n d : ℕ)
    → IsClient n
    → c.number ≡ n
    → c.dest ≡ d
    → Alternates n d (run es c).2
unfolding run
run-Alternates [] c n d h en ed = tt
run-Alternates (receives m ∷ es) c n d h en ed =
    let (number, dest, printed, sent) = receiving_keeps m c in
    rw sent (run-Alternates es (step (receives m) c).0 n d h (number ∙ en) (dest ∙ ed))
run-Alternates (interrupted ∷ es) c n d h en ed =
    rw (interrupt_step c) (run-Alternates es (record c { is_running = false }) n d h en ed)
run-Alternates (rounds text ∷ es) c n d h en ed = elim (Bool-cases c.is_running) [
  | inl running ↦
      let (good, other, new) = round_dest n d h in
      rw (running_round text c n d running en ed)
        (refl, refl, good, other, new, run-Alternates es _ n _ h en refl)
  | inr stopped ↦ rw (stopped_round text c stopped) (run-Alternates es c n d h en ed)
]

-- What the receive thread queues out of a history, given is_running and whether it is in its loop.
abbrev pub kept : Bool → Bool → List Event → List Message
kept running receiving [] = []
kept running receiving (rounds text ∷ es) = kept running receiving es
kept running receiving (interrupted ∷ es) = kept false receiving es
kept running false (receives m ∷ es) = kept running false es
kept running true (receives m ∷ es) =
    let more = m ∷ kept running running es in
    let stopped = kept false false es in if has_prefix (codes "Quit") m.buf then stopped else more

abbrev outcome : Client × List Message × List Message → List Event → List Message
outcome (c, printed, sent) es = printed ++ ((run es c).1 ++ (run es c).0.queue)

stopped_receive :
    (m : Message) (c : Client) → c.receiving ≡ false → step (receives m) c ≡ (c, [], [])
unfolding step
stopped_receive m c h = ground arith

pub quit_receive :
    (m : Message) (c : Client)
    → c.receiving ≡ true
    → has_prefix (codes "Quit") m.buf ≡ true
    → step (receives m) c ≡ (record c { is_running = false; receiving = false }, [], [])
unfolding step client_receives
quit_receive m c h q = ground arith

pub kept_receive :
    (m : Message) (c : Client)
    → c.receiving ≡ true
    → has_prefix (codes "Quit") m.buf ≡ false
    → step (receives m) c
      ≡ (record c { queue = c.queue ++ (m ∷ []); receiving = c.is_running }, [], [])
unfolding step client_receives
kept_receive m c h q = ground arith

prints :
    (es : List Event) (c : Client) (b r : Bool)
    → c.is_running ≡ b
    → c.receiving ≡ r
    → (run es c).1 ++ (run es c).0.queue ≡ c.queue ++ kept b r es
unfolding run
prints [] c b r h k = sym (append-nil c.queue)
prints (rounds text ∷ es) c true r h k =
    append_assoc (step (rounds text) c).1 _ _
    ∙ ap (λ r. outcome r es) (running_round text c c.number c.dest h refl refl)
    ∙ ap (◌++◌ c.queue) (prints es _ true r h k)
prints (rounds text ∷ es) c false r h k =
    append_assoc (step (rounds text) c).1 _ _
    ∙ ap (λ r. outcome r es) (stopped_round text c h)
    ∙ prints es c false r h k
prints (interrupted ∷ es) c b r h k =
    append_assoc (step interrupted c).1 _ _
    ∙ ap (λ r. outcome r es) (interrupt_step c)
    ∙ prints es (record c { is_running = false }) false r refl k
prints (receives m ∷ es) c b false h k =
    append_assoc (step (receives m) c).1 _ _
    ∙ ap (λ r. outcome r es) (stopped_receive m c k)
    ∙ prints es c b false h k
prints (receives m ∷ es) c b true h k = elim (Bool-cases (has_prefix (codes "Quit") m.buf)) [
  | inl q ↦
      append_assoc (step (receives m) c).1 _ _
      ∙ ap (λ r. outcome r es) (quit_receive m c k q)
      ∙ prints es _ false false refl refl
      ∙ ap (◌++◌ c.queue) (rw q)
  | inr q ↦
      append_assoc (step (receives m) c).1 _ _
      ∙ ap (λ r. outcome r es) (kept_receive m c k q)
      ∙ prints es _ b b h h
      ∙ append_assoc c.queue (m ∷ []) (kept b b es)
      ∙ ap (◌++◌ c.queue) (rw q)
]

-- A client prints what its receive thread takes, all messages up to a "Quit" and at most one after
-- ctrl-C, each once and in the order in which they came; what it has not printed is still queued.
pub run_prints :
    (es : List Event) (c : Client)
    → (run es c).1 ++ (run es c).0.queue ≡ c.queue ++ kept c.is_running c.receiving es
run_prints es c = prints es c c.is_running c.receiving refl refl

-- A client whose msgrcv fails any number of times in a row, with the same rubbish in `msg` that
-- does not begin with "Quit": it is still running, and has queued the rubbish as many times.
pub failed_receives :
    (n : ℕ) (junk : Message) (c : Client)
    → c.is_running ≡ true
    → c.receiving ≡ true
    → has_prefix (codes "Quit") junk.buf ≡ false
    → let c' = (run (replicate n (receives junk)) c).0 in
      (c'.is_running ≡ true) × (c'.queue ≡ c.queue ++ replicate n junk)
unfolding run
failed_receives zero junk c h k q = (h, sym (append-nil c.queue))
failed_receives (suc n) junk c h k q =
    subst
      (λ (r : Client × List Message × List Message).
        let c' = (run (replicate n (receives junk)) r.0).0 in
        (c'.is_running ≡ true) × (c'.queue ≡ c.queue ++ replicate (suc n) junk))
      (sym (kept_receive junk c k q))
      (let (running, queued) =
          failed_receives n junk
            (record c { queue = c.queue ++ (junk ∷ []); receiving = c.is_running }) h h q in
        (running, queued ∙ append_assoc c.queue (junk ∷ []) (replicate n junk)))
