-- ===== src/MemoryRelay/Refinement.antt =====
-- Lab10: the three clients on one segment are what happens on each segment when the clients come and
-- go.
use unx511_unix_systems_prog.Prelude.{
  put, put_at, inr, inl, ==_iff, Bool-cases, ◌==◌, ℕ, Bool, true, false, false, List, [], ◌∷◌, ◌++◌,
  ◌≡◌, refl, sym, ap, subst, ◌∙◌, All,
}
use unx511_unix_systems_prog.MemoryRelay.{
  Memory, Pc, finished, Local, advance, System, update, Event, initial,
}
use unx511_unix_systems_prog.MemoryRelay
use unx511_unix_systems_prog.MemoryRelay.Segment.{
  Phase, gets, returned, refused, attaches, removes, runs, World, loaded, remove, moves,
  sig_handler, Move, calls, interrupts, step, run, fresh,
}
use unx511_unix_systems_prog.MemoryRelay.Identifiers.{IsValid, step-IsValid}
use unx511_unix_systems_prog.MemoryRelay.Seen.{
  Agrees, Sees, Follows, phase-Sees, at_phase, create-Sees, stays, access-Follows,
}
use unx511_unix_systems_prog.MemoryRelay.Exclusion.{IsClient, AreClients, has_turn, one_has_turn}

moves-Follows :
    (id n : ℕ) (granted : Bool) (p : Phase) (w : World) (s : System)
    → w.phases n ≡ p
    → IsValid w
    → Sees id w s
    → Follows id (moves n granted p w) s n
unfolding moves remove
moves-Follows id n true gets w s at valid v = stays id n _ s (create-Sees id n w.ipc.bound w s at v)
moves-Follows id n false gets w s at valid v = stays id n _ s (phase-Sees id n refused w s tt v)
moves-Follows id n true (attaches j) w s at valid v = stays id n _ s (
    phase-Sees id n (runs j (loaded n (w.is_running n))) w s
      (λ q. at_phase id n (attaches j) w s at v) v)
moves-Follows id n false (attaches j) w s at valid v =
    stays id n _ s (phase-Sees id n refused w s tt v)
moves-Follows id n granted (runs j l) w s at valid v =
    access-Follows id n j l.pc l w s refl at valid v
moves-Follows id n granted (removes j) w s at valid v = stays id n _ s (record {
  memory = v.memory;
  clients =
      put_at (λ k q. Agrees id k (w.is_running k) q (s.clients k)) n returned w.phases tt v.clients;
  unused = v.unused;
})
moves-Follows id n granted returned w s at valid v = stays id n w s v
moves-Follows id n granted refused w s at valid v = stays id n w s v

-- Ctrl-C in the three.
abbrev interrupted : ℕ → System → System
interrupted n s = (MemoryRelay.run (MemoryRelay.interrupts n ∷ []) s).0

abbrev stopped : Local → Local
stopped l = record l { is_running = false }

-- Ctrl-C for a client that is not in its loop.
outside-Sees :
    (id n : ℕ) (p : Phase) (w : World) (s : System)
    → w.phases n ≡ p
    → Agrees id n false p (stopped (s.clients n))
    → Sees id w s
    → Sees id (record w { is_running = put n false w.is_running }) (interrupted n s)
unfolding MemoryRelay.run MemoryRelay.step
outside-Sees id n p w s e h v = record {
  memory = v.memory;
  clients = λ k. elim (Bool-cases (n == k)) [
    | inl q ↦ rw q (
        subst (λ m. Agrees id m false (w.phases m) (stopped (s.clients n))) ((==_iff n k).0 q)
          (subst (λ r. Agrees id n false r (stopped (s.clients n))) (sym e) h))
    | inr q ↦ rw q (v.clients k)
  ];
  unused = v.unused;
}

sig_handler-Sees :
    (id n : ℕ) (p : Phase) (w : World) (s : System)
    → w.phases n ≡ p
    → Sees id w s
    → Sees id (sig_handler n p w) (interrupted n s)
unfolding sig_handler MemoryRelay.run MemoryRelay.step
sig_handler-Sees id n (runs j l) w s e v = record {
  memory = v.memory;
  clients = λ k. elim (Bool-cases (n == k)) [
    | inl q ↦ rw q (λ i. ap stopped (at_phase id n (runs j l) w s e v i))
    | inr q ↦ rw q (v.clients k)
  ];
  unused = v.unused;
}
sig_handler-Sees id n gets w s e v =
    outside-Sees id n gets w s e (ap stopped (at_phase id n gets w s e v)) v
sig_handler-Sees id n (attaches j) w s e v =
    outside-Sees id n (attaches j) w s e (ap stopped (at_phase id n (attaches j) w s e v)) v
sig_handler-Sees id n (removes j) w s e v = outside-Sees id n (removes j) w s e tt v
sig_handler-Sees id n returned w s e v = outside-Sees id n returned w s e tt v
sig_handler-Sees id n refused w s e v = outside-Sees id n refused w s e tt v

-- A schedule of the three, then another.
run_append :
    (xs ys : List Event) (s : System)
    → (MemoryRelay.run (xs ++ ys) s).0 ≡ (MemoryRelay.run ys (MemoryRelay.run xs s).0).0
unfolding MemoryRelay.run
run_append [] ys s = refl
run_append (x ∷ xs) ys s = run_append xs ys (MemoryRelay.step x s).0

clients_append : (xs ys : List Event) → AreClients xs → AreClients ys → AreClients (xs ++ ys)
clients_append [] ys a b = b
clients_append (x ∷ xs) ys a b = (a.0, clients_append xs ys a.1 b)

abbrev pub client_of : Move → ℕ
client_of (calls n granted) = n
client_of (interrupts n) = n

-- The world's steps of clients 1 to 3.
abbrev pub AreSteps : List Move → Type 0
AreSteps = All (λ e. IsClient (client_of e))

step-Follows :
    (e : Move) (id : ℕ) (w : World) (s : System)
    → IsValid w
    → Sees id w s
    → Follows id (step e w) s (client_of e)
unfolding step Follows
step-Follows (calls n granted) id w s valid v =
    moves-Follows id n granted (w.phases n) w s refl valid v
step-Follows (interrupts n) id w s valid v =
    (MemoryRelay.interrupts n ∷ [], (λ c. (c, tt)), sig_handler-Sees id n (w.phases n) w s refl v)

run-Follows :
    (es : List Move) (id : ℕ) (w : World) (s : System)
    → AreSteps es
    → IsValid w
    → Sees id w s
    → (xs : List Event) × AreClients xs × Sees id (run es w) (MemoryRelay.run xs s).0
unfolding run Follows MemoryRelay.run
run-Follows [] id w s c valid v = ([], tt, v)
run-Follows (e ∷ es) id w s c valid v =
    let (xs, cx, vx) = step-Follows e id w s valid v in
    let (ys, cy, vy) =
      run-Follows es id (step e w) (MemoryRelay.run xs s).0 c.1 (step-IsValid e w valid) vx in
    (
      xs ++ ys,
      clients_append xs ys (cx c.0) cy,
      subst (Sees id (run es (step e w))) (sym (run_append xs ys s)) vy,
    )

fresh-Sees : (id : ℕ) → Sees id fresh initial
unfolding initial
fresh-Sees id = record { memory = refl; clients = λ n. refl; unused = λ h. refl }

fresh-IsValid : IsValid fresh
fresh-IsValid = ((λ m. tt), tt)

-- Whatever the three clients do from their start, with segments that come and go, calls that the
-- system refuses and ctrl-C at any time, each segment and those attached to it look as after some schedule of the three
-- clients of one segment.
pub run_refines :
    (es : List Move) (id : ℕ)
    → AreSteps es
    → (xs : List Event) × AreClients xs × Sees id (run es fresh) (MemoryRelay.run xs initial).0
run_refines es id c = run-Follows es id fresh initial c fresh-IsValid (fresh-Sees id)

-- From the clients' start, of those that are attached to one segment at most one is between its test
-- of destClientNo and its own write of it, and the segment names that one.
pub run_one_has_turn :
    (es : List Move) (id a b : ℕ) (la lb : Local)
    → AreSteps es
    → (run es fresh).phases a ≡ runs id la
    → (run es fresh).phases b ≡ runs id lb
    → has_turn la.pc ≡ true
    → has_turn lb.pc ≡ true
    → (a ≡ b) × (((run es fresh).segments id).dest_client_no ≡ a)
run_one_has_turn es id a b la lb c ea eb ta tb =
    let (xs, cx, v) = run_refines es id c in
    let s = (MemoryRelay.run xs initial).0 in
    let here : (n : ℕ) (l : Local) → (run es fresh).phases n ≡ runs id l → s.clients n ≡ l =
      λ n l e. at_phase id n (runs id l) (run es fresh) s e v refl in
    let (same, named) =
      one_has_turn xs a b cx (ap (λ l. has_turn l.pc) (here a la ea) ∙ ta)
        (ap (λ l. has_turn l.pc) (here b lb eb) ∙ tb) in
    (same, ap (λ m. m.dest_client_no) v.memory ∙ named)
