-- ===== src/MemoryRelay/Seen.antt =====
-- Lab10: the three clients on one segment, seen in the world where clients come and go, and the
-- world's steps that they follow.
use unx511_unix_systems_prog.Prelude.{
  put, put_self, put_other, put_at, ℕ, ◌≤◌, ◌<◌, Bool, Option, none, some, List, [], ◌∷◌, ◌==◌, ◌≡◌,
  ◌≢◌, refl, sym, ap, subst, ◌∙◌, arith, inl, inr, Bool-cases, ==_iff,
}
use unx511_unix_systems_prog.MemoryRelay.{
  Memory, Pc, finished, Local, advance, System, update, Event, initial,
}
use unx511_unix_systems_prog.MemoryRelay
use unx511_unix_systems_prog.MemoryRelay.Segment.{
  Phase, gets, returned, refused, attaches, removes, runs, World, zeroed, set_phase, create, loaded,
  access,
}
use unx511_unix_systems_prog.MemoryRelay.Identifiers.{uses, Below, IsValid}
use unx511_unix_systems_prog.MemoryRelay.Exclusion.{IsClient, AreClients}

-- What client n of the three is while it stands at a phase, as far as segment `id` is concerned.
abbrev pub Agrees : ℕ → ℕ → Bool → Phase → Local → Type 0
Agrees id n running gets l = l ≡ loaded n running
Agrees id n running (attaches j) l = l ≡ loaded n running
Agrees id n running (runs j k) l = j ≡ id → l ≡ k
Agrees id n running (removes j) l = Unit
Agrees id n running returned l = Unit
Agrees id n running refused l = Unit

-- The three clients on one segment, seen in the world at segment `id`.
pub record Sees (id : ℕ) (w : World) (s : System) : Type 0 where
  pub memory : w.segments id ≡ s.mem
  pub clients : (n : ℕ) → Agrees id n (w.is_running n) (w.phases n) (s.clients n)
  pub unused : w.ipc.next ≤ id → s.mem ≡ zeroed

pub phase-Sees :
    (id n : ℕ) (p : Phase) (w : World) (s : System)
    → Agrees id n (w.is_running n) p (s.clients n)
    → Sees id w s
    → Sees id (set_phase n p w) s
phase-Sees id n p w s h v = record {
  memory = v.memory;
  clients = put_at (λ k q. Agrees id k (w.is_running k) q (s.clients k)) n p w.phases h v.clients;
  unused = v.unused;
}

-- Where client n stands, in the three.
pub at_phase :
    (id n : ℕ) (p : Phase) (w : World) (s : System)
    → w.phases n ≡ p
    → Sees id w s
    → Agrees id n (w.is_running n) p (s.clients n)
at_phase id n p w s e v = subst (λ q. Agrees id n (w.is_running n) q (s.clients n)) e (v.clients n)

new_memory :
    (id next : ℕ) (f : ℕ → Memory) (m : Memory)
    → f id ≡ m
    → (next ≤ id → m ≡ zeroed)
    → put next zeroed f id ≡ m
new_memory id next f m e h = elim (Bool-cases (next == id)) [
  | inl same ↦ rw same (sym (h (let q = (==_iff next id).0 same in omega (arith, q))))
  | inr other ↦ rw other e
]

pub create-Sees :
    (id n : ℕ) (o : Option ℕ) (w : World) (s : System)
    → w.phases n ≡ gets
    → Sees id w s
    → Sees id (create n o w) s
unfolding create
create-Sees id n (some b) w s e v = phase-Sees id n (attaches b) w s (at_phase id n gets w s e v) v
create-Sees id n none w s e v = record {
  memory = new_memory id w.ipc.next w.segments s.mem v.memory v.unused;
  clients =
      put_at (λ k q. Agrees id k (w.is_running k) q (s.clients k)) n (attaches w.ipc.next) w.phases
        (at_phase id n gets w s e v) v.clients;
  unused = λ h. v.unused (omega (arith, h));
}

-- What the three do while the world makes a step: nothing, or one event.
unfoldable pub Follows : ℕ → World → System → ℕ → Type 0
Follows id w s n =
    (es : List Event) × (IsClient n → AreClients es) × Sees id w (MemoryRelay.run es s).0

pub stays : (id n : ℕ) (w : World) (s : System) → Sees id w s → Follows id w s n
unfolding Follows MemoryRelay.run
stays id n w s v = ([], (λ c. tt), v)

-- A step of client n on segment j.
unfoldable stepped : ℕ → ℕ → Pc → Local → World → World
stepped n j p l w =
    let (l', m, out) = advance n p l (w.segments j) in
    set_phase n (runs j l') (record w { segments = put j m w.segments })

stepped_here :
    (id n : ℕ) (l : Local) (w : World) (s : System)
    → s.clients n ≡ l
    → id < w.ipc.next
    → Sees id w s
    → Sees id (stepped n id l.pc l w) (MemoryRelay.run (MemoryRelay.runs n ∷ []) s).0
unfolding stepped MemoryRelay.run MemoryRelay.step
stepped_here id n l w s e h v =
    let same : advance n (s.clients n).pc (s.clients n) s.mem ≡ advance n l.pc l (w.segments id) =
      rw (e, v.memory) refl in
    record {
      memory = put_self id _ w.segments ∙ sym (ap (λ r. r.1) same);
      clients = λ k. elim (Bool-cases (n == k)) [
        | inl q ↦ rw q (λ i. ap (λ r. r.0) same)
        | inr q ↦ rw q (v.clients k)
      ];
      unused = λ k. absurd (omega (arith, k, h));
    }

stepped_elsewhere :
    (id n j : ℕ) (l : Local) (w : World) (s : System)
    → j ≢ id
    → Sees id w s
    → Sees id (stepped n j l.pc l w) s
unfolding stepped
stepped_elsewhere id n j l w s other v = record {
  memory = put_other j id _ w.segments other ∙ v.memory;
  clients =
      put_at (λ k q. Agrees id k (w.is_running k) q (s.clients k)) n _ w.phases
        (λ e. absurd (other e)) v.clients;
  unused = v.unused;
}

stepped-Follows :
    (id n j : ℕ) (l : Local) (w : World) (s : System)
    → w.phases n ≡ runs j l
    → IsValid w
    → Sees id w s
    → Follows id (stepped n j l.pc l w) s n
unfolding Follows
stepped-Follows id n j l w s at valid v =
    let known : j < w.ipc.next = subst (λ q. Below w.ipc.next (uses q)) at (valid.0 n) in
    elim (Bool-cases (j == id)) [
      | inl same ↦
          let q : j ≡ id = (==_iff j id).0 same in
          subst (λ i. Follows id (stepped n i l.pc l w) s n) (sym q)
            (
              MemoryRelay.runs n ∷ [],
              (λ c. (c, tt)),
              stepped_here id n l w s (at_phase id n (runs j l) w s at v q)
                  (subst (λ i. i < w.ipc.next) q known) v,
            )
      | inr other ↦
          stays id n _ s (stepped_elsewhere id n j l w s (λ q. ground (arith, other, q)) v)
    ]

pub access-Follows :
    (id n j : ℕ) (p : Pc) (l : Local) (w : World) (s : System)
    → l.pc ≡ p
    → w.phases n ≡ runs j l
    → IsValid w
    → Sees id w s
    → Follows id (access n j p l w) s n
unfolding access stepped
access-Follows id n j finished l w s e at valid v =
    stays id n _ s (phase-Sees id n (removes j) w s tt v)
access-Follows id n j p l w s e at valid v =
    subst (λ q. Follows id (stepped n j q l w) s n) e (stepped-Follows id n j l w s at valid v)
