-- ===== src/HardwareDevice/Thread.antt =====
-- Lab5/kernel/hardwareDevice.c: the thread hardwareSim, and unloading the module.
use unx511_unix_systems_prog.Prelude.{
  ℕ, zero, suc, ◌+◌, ◌-◌, ◌*◌, ◌%◌, ◌≤◌, Bool, true, false, List, [], ◌∷◌, ◌++◌, replicate, ◌≡◌,
  refl, subst, arith, ap, sym, ◌∙◌, ltb, length, Bool-cases, inl, inr,
}
use unx511_unix_systems_prog.HardwareDevice.{
  Device, Sim, start, outer, inner, returned, filling, rotating, wrapping, Command, halt, resume,
  unknown, update, increment, wrap, next_char, sim_step, hardware_device_ioctl, unregister_device,
}

-- What may happen to a registered device: a step of its thread, an ioctl.
pub data Event : Type 0 where
  runs : Event
  ioctl : Command → Event

unfoldable pub step : Event → Sim × Device → Sim × Device
step runs (s, d) = sim_step s d
step (ioctl c) (s, d) = (s, (hardware_device_ioctl c d).1)

unfoldable pub run : List Event → Sim × Device → Sim × Device
run [] s = s
run (e ∷ es) s = run es (step e s)

-- A number of steps of the thread alone.
unfoldable pub sim_steps : ℕ → Sim × Device → Sim × Device
sim_steps zero s = s
sim_steps (suc n) (s, d) = sim_steps n (sim_step s d)

-- Fifteen times one letter, and the zero that ends the string.
abbrev pub letters : ℕ → List ℕ
letters c = replicate 15 c ++ (0 ∷ [])

-- i letters that have been turned, then `rest`.
abbrev pub turned : ℕ → ℕ → List ℕ → List ℕ
turned i c rest = replicate i (next_char c) ++ rest

-- What the buffer is where the thread stands, by the letter c before the for loop.
abbrev pub Reads : Sim → ℕ → List ℕ → Type 0
Reads start c buf = length buf ≡ 16
Reads (filling i) c buf = (rest : List ℕ) × (buf ≡ replicate i 97 ++ rest) × (i + length rest ≡ 16)
Reads outer c buf = buf ≡ letters c
Reads inner c buf = buf ≡ letters c
Reads returned c buf = buf ≡ letters c
Reads (rotating i) c buf = (j : ℕ) × (i + j ≡ 15) × (buf ≡ turned i c (replicate j c ++ (0 ∷ [])))
Reads (wrapping i) c buf =
    (j : ℕ) × (i + suc j ≡ 15) × (buf ≡ turned i c (increment c ∷ replicate j c ++ (0 ∷ [])))

abbrev pub HasLetters : Sim × Device → Type 0
HasLetters (s, d) = (c : ℕ) × (97 ≤ c) × (c ≤ 122) × Reads s c d.buffer

next_letter : (c : ℕ) → 97 ≤ c → c ≤ 122 → next_char c ≡ 97 + (c - 96) % 26
unfolding next_char
next_letter c h k = ground arith

update-replicate :
    (i x y : ℕ) (f : ℕ → ℕ) (rest : List ℕ)
    → update i f (replicate i x ++ (y ∷ rest)) ≡ replicate i x ++ (f y ∷ rest)
update-replicate zero x y f rest = refl
update-replicate (suc i) x y f rest = ap (◌∷◌ x) (update-replicate i x y f rest)

replicate-snoc :
    (i x : ℕ) (rest : List ℕ) → replicate i x ++ (x ∷ rest) ≡ replicate (suc i) x ++ rest
replicate-snoc zero x rest = refl
replicate-snoc (suc i) x rest = ap (◌∷◌ x) (replicate-snoc i x rest)

at_16 : (i : ℕ) → i + 0 ≡ 16 → i ≡ 16
at_16 i l = omega (arith, l)

at_15 : (i : ℕ) → i + 0 ≡ 15 → i ≡ 15
at_15 i l = omega (arith, l)

at_15' : (i : ℕ) → i + 1 ≡ 16 → i ≡ 15
at_15' i l = omega (arith, l)

step_filling :
    (i c : ℕ) (d : Device)
    → 97 ≤ c
    → c ≤ 122
    → Reads (filling i) c d.buffer
    → HasLetters (sim_step (filling i) d)
unfolding sim_step
step_filling i c d h k ([], e, l) =
    subst (λ n. d.buffer ≡ replicate n 97 ++ [] → HasLetters (sim_step (filling n) d))
      (sym (at_16 i l)) (λ e. (97, omega arith, omega arith, ap (update 15 (λ c. 0)) e)) e
step_filling i c d h k (y ∷ [], e, l) =
    subst (λ n. d.buffer ≡ replicate n 97 ++ (y ∷ []) → HasLetters (sim_step (filling n) d))
      (sym (at_15' i l)) (λ e. (97, omega arith, omega arith, ap (update 15 (λ c. 0)) e)) e
step_filling i c d h k (y ∷ z ∷ rest, e, l) =
    let more : ltb i 15 ≡ true = ground (arith, l) in
    rw more (
      c,
      h,
      k,
      (
        z ∷ rest,
        ap (update i (λ c. 97)) e
            ∙ update-replicate i 97 y (λ c. 97) (z ∷ rest)
            ∙ replicate-snoc i 97 (z ∷ rest),
        omega (arith, l),
      ),
    )

step_rotating :
    (i c : ℕ) (d : Device)
    → 97 ≤ c
    → c ≤ 122
    → Reads (rotating i) c d.buffer
    → HasLetters (sim_step (rotating i) d)
unfolding sim_step
step_rotating i c d h k (zero, l, e) =
    let next = next_letter c h k in
    subst (λ n. d.buffer ≡ turned n c (0 ∷ []) → HasLetters (sim_step (rotating n) d))
      (sym (at_15 i l))
      (λ e. (next_char c, omega (arith, next), omega (arith, next), ap (update 15 (λ c. 0)) e)) e
step_rotating i c d h k (suc j, l, e) =
    let more : ltb i 15 ≡ true = ground (arith, l) in
    rw more (
      c,
      h,
      k,
      (
        j,
        l,
        ap (update i increment) e
            ∙ update-replicate i (next_char c) c increment (replicate j c ++ (0 ∷ [])),
      ),
    )

step_wrapping :
    (i c : ℕ) (d : Device)
    → 97 ≤ c
    → c ≤ 122
    → Reads (wrapping i) c d.buffer
    → HasLetters (sim_step (wrapping i) d)
unfolding sim_step next_char
step_wrapping i c d h k (j, l, e) = (
  c,
  h,
  k,
  (
    j,
    omega (arith, l),
    ap (update i wrap) e
        ∙ update-replicate i (next_char c) (increment c) wrap (replicate j c ++ (0 ∷ []))
        ∙ replicate-snoc i (next_char c) (replicate j c ++ (0 ∷ [])),
  ),
)

step_tests :
    (c : ℕ) (d : Device)
    → 97 ≤ c
    → c ≤ 122
    → d.buffer ≡ letters c
    → HasLetters (sim_step outer d) × HasLetters (sim_step inner d)
unfolding sim_step
step_tests c d h k r = (
  elim (Bool-cases d.is_running) [ inl q ↦ rw q (c, h, k, r) | inr q ↦ rw q (c, h, k, r) ],
  elim (Bool-cases d.is_halt) [ inl q ↦ rw q (c, h, k, r) | inr q ↦ rw q (c, h, k, (15, refl, r)) ],
)

step-HasLetters : (e : Event) (s : Sim × Device) → HasLetters s → HasLetters (step e s)
unfolding step hardware_device_ioctl
step-HasLetters runs (start, d) (c, h, k, r) =
    unfold sim_step in (c, h, k, (d.buffer, refl, omega (arith, r)))
step-HasLetters runs (filling i, d) (c, h, k, r) = step_filling i c d h k r
step-HasLetters runs (outer, d) (c, h, k, r) = (step_tests c d h k r).0
step-HasLetters runs (inner, d) (c, h, k, r) = (step_tests c d h k r).1
step-HasLetters runs (rotating i, d) (c, h, k, r) = step_rotating i c d h k r
step-HasLetters runs (wrapping i, d) (c, h, k, r) = step_wrapping i c d h k r
step-HasLetters runs (returned, d) h = unfold sim_step in h
step-HasLetters (ioctl halt) (s, d) h = h
step-HasLetters (ioctl resume) (s, d) h = h
step-HasLetters (ioctl unknown) (s, d) h = h

-- From a thread that has not begun and a buffer of sixteen bytes, or from a state as described here, in
-- every state that accesses of the thread and ioctls between them reach: at a test of a loop, and when the thread has returned, the
-- buffer is fifteen times one letter from a to z and a zero. In the midst of a round of the inner loop
-- the letters in front have been turned and those behind not yet, with the one between them possibly
-- past its increment and before its test. In the first loop the letters in front are a.
pub run-HasLetters : (es : List Event) (s : Sim × Device) → HasLetters s → HasLetters (run es s)
unfolding run
run-HasLetters [] s h = h
run-HasLetters (e ∷ es) s h = run-HasLetters es (step e s) (step-HasLetters e s h)

-- At a test, or returned.
abbrev AtRest : Sim → Type 0
AtRest outer = Unit
AtRest inner = Unit
AtRest returned = Unit
AtRest _ = ⊥

-- While the device is halted, a thread that is at a test goes round and leaves the buffer alone.
halted_step :
    (s : Sim) (d : Device)
    → AtRest s
    → d.is_halt ≡ true
    → let (s', d') = sim_step s d in AtRest s' × (d' ≡ d)
unfolding sim_step
halted_step start d h e = elim h [ ]
halted_step (filling i) d h e = elim h [ ]
halted_step (rotating i) d h e = elim h [ ]
halted_step (wrapping i) d h e = elim h [ ]
halted_step outer d h e = elim (Bool-cases d.is_running) [
  | inl q ↦ rw q (tt, refl)
  | inr q ↦ rw q (tt, refl)
]
halted_step inner d h e = rw e (tt, refl)
halted_step returned d h e = (tt, refl)

halted_steps :
    (n : ℕ) (s : Sim) (d : Device) → AtRest s → d.is_halt ≡ true → (sim_steps n (s, d)).1 ≡ d
unfolding sim_steps
halted_steps zero s d h e = refl
halted_steps (suc n) s d h e =
    let (still, same) = halted_step s d h e in
    halted_steps n (sim_step s d).0 (sim_step s d).1 still (ap (λ (x : Device). x.is_halt) same ∙ e)
    ∙ same

sim_steps-add : (m n : ℕ) (s : Sim × Device) → sim_steps (m + n) s ≡ sim_steps n (sim_steps m s)
unfolding sim_steps
sim_steps-add zero n s = let same : 0 + n ≡ n = omega arith in ap (λ k. sim_steps k s) same
sim_steps-add (suc m) n (s, d) =
    let moved : suc m + n ≡ suc (m + n) = omega arith in
    ap (λ k. sim_steps k (s, d)) moved ∙ sim_steps-add m n (sim_step s d)

-- One round of the inner loop: a test, fifteen times two accesses, the end of the string.
round_runs :
    (c m : ℕ) (running : Bool)
    → let d : Device = record {
      major = m;
      buffer = letters c;
      is_running = running;
      is_halt = false;
    } in
      sim_steps 32 (inner, d) ≡ (inner, record d { buffer = letters (next_char c) })
unfolding sim_steps sim_step next_char
round_runs c m running = refl

round_turns :
    (c : ℕ) (d : Device)
    → d.is_halt ≡ false
    → d.buffer ≡ letters c
    → sim_steps 32 (inner, d) ≡ (inner, record d { buffer = letters (next_char c) })
round_turns c d e b =
    ap (λ x. sim_steps 32 (inner, x)) (λ i. record d { buffer = b i; is_halt = e i })
    ∙ round_runs c d.major d.is_running
    ∙ (λ i. (inner, record d { buffer = letters (next_char c); is_halt = sym e i }))

-- A device that is not halted and holds fifteen times one small letter: after n rounds of the inner
-- loop, of thirty-two accesses each, the letters are n further in the alphabet, from z on to a.
pub letter_after :
    (n c : ℕ) (d : Device)
    → 97 ≤ c
    → c ≤ 122
    → d.is_halt ≡ false
    → d.buffer ≡ letters c
    → (sim_steps (n * 32) (inner, d)).1.buffer ≡ letters (97 + (c - 97 + n) % 26)
letter_after zero c d h k e b = unfold sim_steps in b ∙ ap letters (omega arith)
letter_after (suc n) c d h k e b =
    let more : suc n * 32 ≡ 32 + n * 32 = omega arith in
    let next = next_letter c h k in
    ap (λ m. (sim_steps m (inner, d)).1.buffer) more
    ∙ ap (λ r. r.1.buffer) (sim_steps-add 32 (n * 32) (inner, d))
    ∙ ap (λ r. (sim_steps (n * 32) r).1.buffer) (round_turns c d e b)
    ∙ letter_after n (next_char c) (record d { buffer = letters (next_char c) })
        (omega (arith, next)) (omega (arith, next)) e refl
    ∙ ap letters (omega (arith, next))

-- At the test of the inner loop, or in a round of it.
abbrev pub IsInside : Sim → Type 0
IsInside inner = Unit
IsInside (rotating i) = Unit
IsInside (wrapping i) = Unit
IsInside _ = ⊥

step-IsInside :
    (s : Sim) (d : Device)
    → IsInside s
    → d.is_halt ≡ false
    → let (s', d') = sim_step s d in IsInside s' × (d'.is_halt ≡ false)
unfolding sim_step
step-IsInside start d h e = elim h [ ]
step-IsInside outer d h e = elim h [ ]
step-IsInside returned d h e = elim h [ ]
step-IsInside (filling i) d h e = elim h [ ]
step-IsInside inner d h e = rw e (tt, refl)
step-IsInside (rotating i) d h e = elim (Bool-cases (ltb i 15)) [
  | inl q ↦ rw q (tt, e)
  | inr q ↦ rw q (tt, e)
]
step-IsInside (wrapping i) d h e = (tt, e)

stays-IsInside :
    (n : ℕ) (s : Sim) (d : Device)
    → IsInside s
    → d.is_halt ≡ false
    → IsInside (sim_steps n (s, d)).0
unfolding sim_steps
stays-IsInside zero s d h e = h
stays-IsInside (suc n) s d h e =
    let (still, on) = step-IsInside s d h e in
    stays-IsInside n (sim_step s d).0 (sim_step s d).1 still on

stays_returned : (n : ℕ) (d : Device) → (sim_steps n (returned, d)).0 ≡ returned
unfolding sim_steps sim_step
stays_returned zero d = refl
stays_returned (suc n) d = stays_returned n d

-- Unloading the module clears is_running and also is_halt. A thread that is at the test of its outer
-- loop returns in its next step. One that is in its inner loop, at its test or in the midst of a
-- round, never leaves it: after any number of steps it is still inside.
pub unregister_outcome :
    (n : ℕ) (s : Sim) (d : Device)
    → IsInside s
    → let unloaded = (unregister_device d).1 in
      ((sim_steps (suc n) (outer, unloaded)).0 ≡ returned) × IsInside (sim_steps n (s, unloaded)).0
unfolding unregister_device
unregister_outcome n s d h = (
  unfold sim_steps sim_step in stays_returned n _,
  stays-IsInside n s (record d { is_running = false; is_halt = false }) h refl,
)
