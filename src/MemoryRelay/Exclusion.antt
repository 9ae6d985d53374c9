-- ===== src/MemoryRelay/Exclusion.antt =====
-- Lab10: between a client's test of destClientNo and its own write of it, no other client is there.
use unx511_unix_systems_prog.Prelude.{
  ℕ, ◌≤◌, Bool, true, false, List, [], ◌∷◌, ◌≡◌, refl, ◌≢◌, arith, ◌∙◌, sym, All,
}
use unx511_unix_systems_prog.MemoryRelay.{
  Pc, start_src, start_dest, print_src, print_message, set_src, set_dest, dest_of, advance, System,
  update, Event, runs, interrupts, step, run, initial,
}

-- A client that has found its number in destClientNo and has not overwritten it.
abbrev pub has_turn : Pc → Bool
has_turn (print_src i) = true
has_turn (print_message i) = true
has_turn (set_src i) = true
has_turn (set_dest i) = true
has_turn _ = false

-- Client 3 has not made its first message known.
abbrev pub is_starting : Pc → Bool
is_starting start_src = true
is_starting start_dest = true
is_starting _ = false

-- Whoever has the turn is named by the segment, which names nobody until client 3 has started; only
-- client 3 makes the start.
pub record Inv (s : System) : Type 0 where
  pub turn : (n : ℕ) → has_turn (s.clients n).pc ≡ true → (s.mem.dest_client_no ≡ n) × (1 ≤ n)
  pub starting :
      (n : ℕ) → is_starting (s.clients n).pc ≡ true → (s.mem.dest_client_no ≡ 0) × (n ≡ 3)
  pub named : s.mem.dest_client_no ≤ 3

abbrev pub IsClient : ℕ → Type 0
IsClient n = (1 ≤ n) × (n ≤ 3)

abbrev pub client_of : Event → ℕ
client_of (runs n) = n
client_of (interrupts n) = n

-- A client names one of the two others.
pub dest_of_other : (n i : ℕ) → IsClient n → IsClient (dest_of n i) × (dest_of n i ≢ n)
unfolding dest_of
dest_of_other n i h = ground arith

initial-Inv : Inv initial
unfolding initial
initial-Inv = record {
  turn = λ n h. ground arith;
  starting = λ n h. ground arith;
  named = omega arith;
}

module _ (n : ℕ) {s : System} (c : IsClient n) (v : Inv s) where
  -- The system after client n has stepped from the place p.
  abbrev after : Pc → System
  after p =
      let (l, m, out) = advance n p (s.clients n) s.mem in
      record { mem = m; clients = update s.clients n l }

  after_turn :
      (p : Pc)
      → (s.clients n).pc ≡ p
      → (k : ℕ) → has_turn ((after p).clients k).pc ≡ true
      → ((after p).mem.dest_client_no ≡ k) × (1 ≤ k)
  unfolding advance
  after_turn (set_dest i) e k h = ground (arith, v.turn k, v.turn n, dest_of_other n i c)
  after_turn _ e k h = ground (arith, v.turn k, v.turn n, v.starting n, v.starting k)

  after_starting :
      (p : Pc)
      → (s.clients n).pc ≡ p
      → (k : ℕ) → is_starting ((after p).clients k).pc ≡ true
      → ((after p).mem.dest_client_no ≡ 0) × (k ≡ 3)
  unfolding advance
  after_starting (set_dest i) e k h =
      ground (arith, v.turn k, v.turn n, v.starting k, dest_of_other n i c)
  after_starting _ e k h = ground (arith, v.turn k, v.turn n, v.starting n, v.starting k)

  after_named : (p : Pc) → (s.clients n).pc ≡ p → (after p).mem.dest_client_no ≤ 3
  unfolding advance
  after_named (set_dest i) e = (dest_of_other n i c).0.1
  after_named _ e = ground (arith, v.named)

step-Inv : (e : Event) (s : System) → IsClient (client_of e) → Inv s → Inv (step e s).0
unfolding step
step-Inv (interrupts n) s c v = record {
  turn = λ k h. ground (arith, v.turn k);
  starting = λ k h. ground (arith, v.starting k);
  named = v.named;
}
step-Inv (runs n) s c v = record {
  turn = after_turn n {s = s} c v (s.clients n).pc refl;
  starting = after_starting n {s = s} c v (s.clients n).pc refl;
  named = after_named n {s = s} c v (s.clients n).pc refl;
}

-- The events of clients 1 to 3.
abbrev pub AreClients : List Event → Type 0
AreClients = All (λ e. IsClient (client_of e))

run-Inv : (es : List Event) (s : System) → AreClients es → Inv s → Inv (run es s).0
unfolding run
run-Inv [] s c v = v
run-Inv (e ∷ es) s c v = run-Inv es (step e s).0 c.1 (step-Inv e s c.0 v)

-- Under every schedule of the three clients, interrupted or not, at most one of them is between its
-- test of destClientNo and its own write of it, and the segment names that one.
pub one_has_turn :
    (es : List Event) (a b : ℕ)
    → AreClients es
    → let s = (run es initial).0 in
      has_turn (s.clients a).pc ≡ true
      → has_turn (s.clients b).pc ≡ true
      → (a ≡ b) × (s.mem.dest_client_no ≡ a)
one_has_turn es a b c ha hb =
    let v = run-Inv es initial c initial-Inv in
    (sym (v.turn a ha).0 ∙ (v.turn b hb).0, (v.turn a ha).0)
