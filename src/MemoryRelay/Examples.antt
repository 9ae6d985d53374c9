-- ===== src/MemoryRelay/Examples.antt =====
-- Lab10: runs of the three clients, and the theorems at them.
use unx511_unix_systems_prog.MemoryRelay.{Local, Event, print_src}
use unx511_unix_systems_prog.MemoryRelay.Exclusion.{AreClients}
use unx511_unix_systems_prog.MemoryRelay.Seen.{Sees}
use unx511_unix_systems_prog.MemoryRelay.Refinement.{run_refines, run_one_has_turn}
use unx511_unix_systems_prog.Prelude.{
  put_intro, ℕ, true, some, ◌≢◌, Bool-cases, ◌==◌, ==_iff, subst, ◌∙◌, inl, inr, List, [], ◌∷◌,
  ◌++◌, replicate, ◌≡◌, refl, arith, sym,
}
use unx511_unix_systems_prog.MemoryRelay.{
  finished, from, text, advance, System, Event, runs, step, run, initial, message_text,
}
use unx511_unix_systems_prog.MemoryRelay.Exclusion.{one_has_turn}
use unx511_unix_systems_prog.MemoryRelay.Termination.{run_finishes}
use unx511_unix_systems_prog.MemoryRelay.Segment
use unx511_unix_systems_prog.MemoryRelay.Identifiers.{uses, run_other}
use unx511_unix_systems_prog.MemoryRelay.Sharing.{late_client_is_alone}

-- Client 3 starts, and client 1 takes its turn up to the naming of client 2.
abbrev opening : List Event
opening = replicate 4 (runs 3) ++ replicate 5 (runs 1)

abbrev opened : System
opened = (run opening initial).0

opened_outputs : (run opening initial).1 ≡ from 3 ∷ text (message_text 0 3) ∷ []
unfolding run step advance initial
opened_outputs = refl

one_has_turn_example :
    let s = (run (replicate 4 (runs 3) ++ (runs 1 ∷ [])) initial).0 in (1 ≡ s.mem.dest_client_no)
unfolding run step advance initial
one_has_turn_example =
    sym (one_has_turn (replicate 4 (runs 3) ++ (runs 1 ∷ [])) 1 1 (omega arith) refl refl).1

run_finishes_example : ((run (replicate 215 (runs 3)) initial).0.clients 3).pc ≡ finished
unfolding initial
run_finishes_example = run_finishes (replicate 215 (runs 3)) initial 3 (omega arith)

-- Clients 1 and 3, each up to its attachment.
abbrev two_attach : List Segment.Move
two_attach =
    Segment.calls 3 true ∷ Segment.calls 1 true ∷ Segment.calls 3 true ∷ Segment.calls 1 true ∷ []

none_returned : (n : ℕ) → (Segment.run two_attach Segment.fresh).phases n ≢ Segment.returned
unfolding Segment.run Segment.step Segment.moves Segment.create
none_returned =
    put_intro (λ q. q ≢ Segment.returned) 1 _ _ (λ e. cc)
      (put_intro (λ q. q ≢ Segment.returned) 3 _ _ (λ e. cc)
        (put_intro (λ q. q ≢ Segment.returned) 1 _ _ (λ e. cc)
          (put_intro (λ q. q ≢ Segment.returned) 3 _ _ (λ e. cc) (λ k e. cc))))

attached_to :
    (uses ((Segment.run two_attach Segment.fresh).phases 1) ≡ some 0)
    × (uses ((Segment.run two_attach Segment.fresh).phases 3) ≡ some 0)
unfolding Segment.run Segment.step Segment.moves Segment.create
attached_to = (refl, refl)

-- Client 1 alone, up to its shmctl.
abbrev first_done : Segment.World
first_done = Segment.run (replicate 34 (Segment.calls 1 true)) Segment.fresh

first_removes : first_done.phases 1 ≡ Segment.removes 0
unfolding Segment.run Segment.step Segment.moves Segment.create Segment.access advance
first_removes = refl

first_not_returned : (n : ℕ) → first_done.phases n ≢ Segment.returned
first_not_returned n = elim (Bool-cases (1 == n)) [
  | inl same ↦
      subst (λ k. first_done.phases k ≢ Segment.returned) ((==_iff 1 n).0 same)
        (λ e. (let clash : Segment.removes 0 ≡ Segment.returned = sym first_removes ∙ e in cc))
  | inr other ↦ λ e.
      (let apart : 1 ≢ n = λ q. ground (arith, other, q) in
        let clash : Segment.gets ≡ Segment.returned =
          sym (run_other 34 1 n Segment.fresh apart) ∙ e in
        cc)
]

late_client_is_alone_example :
    let w = Segment.run (Segment.calls 1 true ∷ Segment.calls 2 true ∷ []) first_done in
    (w.phases 2 ≡ Segment.attaches first_done.ipc.next)
    × ((m : ℕ) → m ≢ 2 → uses (w.phases m) ≢ some first_done.ipc.next)
late_client_is_alone_example =
    late_client_is_alone (replicate 34 (Segment.calls 1 true)) 1 2 0 true first_not_returned
      first_removes (run_other 34 1 2 Segment.fresh (λ e. cc))

-- Clients 1 and 3 on one segment, ctrl-C for client 2, client 3 through its start, client 1 at its first test.
abbrev named_first : List Segment.Move
named_first =
    two_attach
    ++ (Segment.interrupts 2 ∷ replicate 4 (Segment.calls 3 true) ++ (Segment.calls 1 true ∷ []))

abbrev first_at : Local
first_at = record { pc = print_src 0; is_running = true }

first_has_turn : (Segment.run named_first Segment.fresh).phases 1 ≡ Segment.runs 0 first_at
unfolding Segment.run Segment.step Segment.moves Segment.create Segment.access Segment.sig_handler
    advance
first_has_turn = refl

run_refines_example :
    (xs : List Event) × AreClients xs
    × Sees 0 (Segment.run named_first Segment.fresh) (run xs initial).0
run_refines_example = run_refines named_first 0 (omega arith)

run_one_has_turn_example :
    let one : ℕ = 1 in
    (one ≡ one) × (((Segment.run named_first Segment.fresh).segments 0).dest_client_no ≡ 1)
run_one_has_turn_example =
    run_one_has_turn named_first 0 1 1 first_at first_at (omega arith) first_has_turn first_has_turn
      refl refl
