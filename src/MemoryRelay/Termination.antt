-- ===== src/MemoryRelay/Termination.antt =====
-- Lab10: every client ends after a bounded number of its own steps, also if it was never named.
use unx511_unix_systems_prog.Prelude.{
  ℕ, zero, suc, ◌+◌, ◌-◌, ◌*◌, ◌≤◌, ◌<◌, true, List, [], ◌∷◌, ◌==◌, if◌then◌else◌, replicate, ◌≡◌,
  refl, ◌≢◌, arith, ap, ◌∙◌, sym,
}
use unx511_unix_systems_prog.MemoryRelay.{
  Memory, Pc, start_src, start_dest, start_clear, start_write, poll, print_src, print_message,
  set_src, set_dest, clear, write, finished, Local, advance, System, Event, runs, interrupts, step,
  run, num_messages,
}

-- The most steps that a client makes before it has finished.
abbrev pub steps_left : Pc → ℕ
steps_left start_src = 215
steps_left start_dest = 214
steps_left start_clear = 213
steps_left start_write = 212
steps_left (poll i) = 7 * (30 - i) + 1
steps_left (print_src i) = 7 * (29 - i) + 7
steps_left (print_message i) = 7 * (29 - i) + 6
steps_left (set_src i) = 7 * (29 - i) + 5
steps_left (set_dest i) = 7 * (29 - i) + 4
steps_left (clear i) = 7 * (29 - i) + 3
steps_left (write i) = 7 * (29 - i) + 2
steps_left finished = 0

-- A step of a client that has not finished brings it nearer to its end.
advance-lt :
    (n : ℕ) (p : Pc) (l : Local) (m : Memory)
    → p ≢ finished
    → steps_left (advance n p l m).0.pc < steps_left p
unfolding advance
advance-lt n (poll i) l m h = ground arith
advance-lt n finished l m h = absurd (h refl)
advance-lt n _ l m h = omega arith

-- How many steps a schedule gives to a client.
abbrev pub turns : ℕ → List Event → ℕ
turns n [] = 0
turns n (runs k ∷ es) = let rest = turns n es in if k == n then suc rest else rest
turns n (interrupts k ∷ es) = turns n es

finished_if_none_left : (p : Pc) → steps_left p ≡ 0 → p ≡ finished
finished_if_none_left finished h = refl
finished_if_none_left (poll i) h = absurd (omega arith)
finished_if_none_left _ h = absurd (omega arith)

advance_left :
    (n : ℕ) (p : Pc) (l : Local) (m : Memory)
    → l.pc ≡ p
    → steps_left (advance n p l m).0.pc ≤ steps_left p - 1
advance_left n finished l m h = unfold advance in rw h (omega arith)
advance_left n (poll i) l m h = omega (arith, advance-lt n (poll i) l m (λ e. cc))
advance_left n p l m h = omega (arith, advance-lt n p l m (λ e. cc))

step_left :
    (e : Event) (s : System) (n : ℕ)
    → steps_left ((step e s).0.clients n).pc ≤ steps_left (s.clients n).pc - turns n (e ∷ [])
unfolding step
step_left (interrupts k) s n = ground arith
step_left (runs k) s n = ground (arith, advance_left k (s.clients k).pc (s.clients k) s.mem refl)

turns_cons :
    (n : ℕ) (e : Event) (es : List Event) → turns n (e ∷ es) ≡ turns n (e ∷ []) + turns n es
turns_cons n (runs k) es = ground arith
turns_cons n (interrupts k) es = ground arith

-- Under any schedule of any clients, a client that gets at least 215 steps has finished, whatever it
-- was sent or not.
pub run_finishes :
    (es : List Event) (s : System) (n : ℕ)
    → steps_left (s.clients n).pc ≤ turns n es
    → ((run es s).0.clients n).pc ≡ finished
unfolding run
run_finishes [] s n h = finished_if_none_left (s.clients n).pc (omega arith)
run_finishes (e ∷ es) s n h =
    run_finishes es (step e s).0 n (omega (arith, step_left e s n, turns_cons n e es))

unnamed_step :
    (i n : ℕ) (s : System)
    → (s.clients n).pc ≡ poll i
    → (s.clients n).is_running ≡ true
    → s.mem.dest_client_no ≢ n
    → i < num_messages
    → let (s', out) = step (runs n) s in
      ((s'.clients n).pc ≡ poll (suc i))
      × ((s'.clients n).is_running ≡ true)
      × (s'.mem ≡ s.mem)
      × (out ≡ [])
unfolding step advance
unnamed_step i n s p r h lt = ground arith

-- A client that is never named makes its rounds all the same: from round i on it is at its end after
-- 31 - i steps of its own, has shown nothing and written nothing.
pub unnamed_finishes :
    (k i n : ℕ) (s : System)
    → i + k ≡ num_messages
    → (s.clients n).pc ≡ poll i
    → (s.clients n).is_running ≡ true
    → s.mem.dest_client_no ≢ n
    → let (s', out) = run (replicate (suc k) (runs n)) s in
      ((s'.clients n).pc ≡ finished) × (s'.mem ≡ s.mem) × (out ≡ [])
unfolding run
unnamed_finishes zero i n s e p r h = unfold step advance in ground arith
unnamed_finishes (suc k) i n s e p r h =
    let (p', r', same, silent) = unnamed_step i n s p r h (omega arith) in
    let s' = (step (runs n) s).0 in
    let (done, kept, quiet) =
      unnamed_finishes k (suc i) n s' (omega arith) p' r'
        (λ q. h (ap (λ (m : Memory). m.dest_client_no) (sym same) ∙ q)) in
    (done, kept ∙ same, rw silent quiet)
