-- ===== src/Chat/Printing.antt =====
-- Lab9/server.cpp: what the server prints.
use unx511_unix_systems_prog.Prelude.{
  ℕ, true, false, Option, none, some, List, [], ◌∷◌, ◌++◌, map, ◌≡◌, refl, arith, Bool-cases, inl,
  inr, ap, ◌∙◌, sym,
}
use mathlib.Core.List.{append-nil, append_assoc}
use unx511_unix_systems_prog.Chat.{
  Server, Effect, message, accept_client, main_round, Event, rounds, reads, interrupted, step, run,
}

-- The texts that are printed.
abbrev pub printed : List Effect → List (List ℕ)
printed [] = []
printed (message text ∷ out) = text ∷ printed out
printed (_ ∷ out) = printed out

-- What the receive threads read.
abbrev pub received_by : Event → List (List ℕ)
received_by (reads (some (c ∷ text))) = (c ∷ text) ∷ []
received_by _ = []

abbrev pub received : List Event → List (List ℕ)
received [] = []
received (e ∷ es) = received_by e ++ received es

printed-append : (out out' : List Effect) → printed (out ++ out') ≡ printed out ++ printed out'
printed-append [] out' = refl
printed-append (message text ∷ out) out' = ap (◌∷◌ text) (printed-append out out')
printed-append (_ ∷ out) out' = printed-append out out'

printed-messages : (queue : List (List ℕ)) → printed (map message queue) ≡ queue
printed-messages [] = refl
printed-messages (text ∷ queue) = ap (◌∷◌ text) (printed-messages queue)

accept_keeps :
    (fd : Option ℕ) (s : Server)
    → let (s', out) = accept_client fd s in
      (s'.message_queue ≡ s.message_queue) × (printed out ≡ [])
unfolding accept_client
accept_keeps fd s = ground arith

round_prints : (fd : Option ℕ) (s : Server) → printed (main_round fd s).1 ≡ s.message_queue
unfolding main_round
round_prints fd s =
    let (same, silent) = accept_keeps fd s in
    printed-append (accept_client fd s).1 _
    ∙ ap (λ out. out ++ printed (map message (accept_client fd s).0.message_queue)) silent
    ∙ printed-messages _
    ∙ same

pub running_step :
    (fd : Option ℕ) (s : Server) → s.is_running ≡ true → step (rounds fd) s ≡ main_round fd s
unfolding step
running_step fd s h = ground arith

pub stopped_step :
    (fd : Option ℕ) (s : Server) → s.is_running ≡ false → step (rounds fd) s ≡ (s, [])
unfolding step
stopped_step fd s h = ground arith

round_keeps :
    (fd : Option ℕ) (s : Server)
    → printed (main_round fd s).1 ++ (main_round fd s).0.message_queue ≡ s.message_queue ++ []
unfolding main_round
round_keeps fd s = append-nil _ ∙ round_prints fd s ∙ sym (append-nil _)

pub step_prints :
    (e : Event) (s : Server)
    → let (s', out) = step e s in printed out ++ s'.message_queue ≡ s.message_queue ++ received_by e
unfolding step
step_prints (rounds fd) s = elim (Bool-cases s.is_running) [
  | inl running ↦
      ap (λ (r : Server × List Effect). printed r.1 ++ r.0.message_queue)
        (running_step fd s running)
      ∙ round_keeps fd s
  | inr stopped ↦
      ap (λ (r : Server × List Effect). printed r.1 ++ r.0.message_queue)
        (stopped_step fd s stopped)
      ∙ sym (append-nil s.message_queue)
]
step_prints (reads none) s = sym (append-nil s.message_queue)
step_prints (reads (some [])) s = sym (append-nil s.message_queue)
step_prints (reads (some (c ∷ text))) s = refl
step_prints interrupted s = sym (append-nil s.message_queue)

-- Over any interleaving of the server's threads, what it has printed and then what is still queued is
-- what the queue held and then what the receive threads have read, each text once, in order.
pub run_prints_all :
    (es : List Event) (s : Server)
    → let (s', out) = run es s in printed out ++ s'.message_queue ≡ s.message_queue ++ received es
unfolding run
run_prints_all [] s = sym (append-nil s.message_queue)
run_prints_all (e ∷ es) s =
    let (s', out) = step e s in
    ap (λ p. p ++ (run es s').0.message_queue) (printed-append out (run es s').1)
    ∙ append_assoc (printed out) (printed (run es s').1) (run es s').0.message_queue
    ∙ ap (◌++◌ (printed out)) (run_prints_all es s')
    ∙ sym (append_assoc (printed out) s'.message_queue (received es))
    ∙ ap (λ q. q ++ received es) (step_prints e s)
    ∙ append_assoc s.message_queue (received_by e) (received es)
