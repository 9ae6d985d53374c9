-- ===== src/Chat/Connections.antt =====
-- Lab9/server.cpp: whom the server admits, and how it takes leave.
use unx511_unix_systems_prog.Prelude.{
  ℕ, zero, suc, ◌≤◌, ◌<◌, Bool, true, false, Option, none, some, List, [], ◌∷◌, ◌++◌, map, ◌≡◌,
  refl, arith, Bool-cases, inl, inr, ap, ◌∙◌, sym, subst, length, take, set, ltb, length-append,
  min, take_self, ltb→lt,
}
use mathlib.Core.List.{append-nil, append_assoc}
use unx511_unix_systems_prog.Chat.Printing.{running_step, stopped_step}
use unx511_unix_systems_prog.Chat.{
  max_clients, Server, initial, Effect, connected, message, sent, closed, accept_client, main_round,
  Event, rounds, reads, interrupted, step, run, quit_clients, session,
}

-- The descriptors that are told to quit, those that are closed, and those that come up for accept
-- before ctrl-C.
abbrev pub told : List Effect → List ℕ
told [] = []
told (sent fd text ∷ out) = fd ∷ told out
told (_ ∷ out) = told out

abbrev pub closes : List Effect → List ℕ
closes [] = []
closes (closed fd ∷ out) = fd ∷ closes out
closes (_ ∷ out) = closes out

abbrev pub offered : Bool → List Event → List ℕ
offered running [] = []
offered running (interrupted ∷ es) = offered false es
offered true (rounds (some fd) ∷ es) = fd ∷ offered true es
offered running (_ ∷ es) = offered running es

-- After these descriptors have come up for accept.
abbrev Kept : Server → List ℕ → Type 0
Kept s fds =
    (take s.client_count s.conn_fds ≡ take max_clients fds)
    × (length s.conn_fds ≡ max_clients)
    × (s.client_count ≡ min max_clients (length fds))

take-set :
    (n : ℕ) (xs : List ℕ) (v : ℕ)
    → n < length xs
    → take (suc n) (set xs n v) ≡ take n xs ++ (v ∷ [])
take-set n [] v h = absurd (omega arith)
take-set zero (x ∷ xs) v h = refl
take-set (suc n) (x ∷ xs) v h = ap (◌∷◌ x) (take-set n xs v (omega arith))

length-set : (n : ℕ) (xs : List ℕ) (v : ℕ) → length (set xs n v) ≡ length xs
length-set n [] v = refl
length-set zero (x ∷ xs) v = refl
length-set (suc n) (x ∷ xs) v = ap suc (length-set n xs v)

take_front : (n : ℕ) (xs ys : List ℕ) → n ≤ length xs → take n (xs ++ ys) ≡ take n xs
take_front zero xs ys h = refl
take_front (suc n) [] ys h = absurd (omega arith)
take_front (suc n) (x ∷ xs) ys h = ap (◌∷◌ x) (take_front n xs ys (omega arith))

with_room :
    (fd : ℕ) (s : Server)
    → s.client_count < max_clients
    → accept_client (some fd) s ≡ (
      record s { conn_fds = set s.conn_fds s.client_count fd; client_count = suc s.client_count },
      connected fd ∷ [],
    )
unfolding accept_client
with_room fd s h = ground arith

without_room :
    (fd : ℕ) (s : Server) → max_clients ≤ s.client_count → accept_client (some fd) s ≡ (s, [])
unfolding accept_client
without_room fd s h = ground arith

accept_Kept :
    (fd : ℕ) (s : Server) (fds : List ℕ)
    → Kept s fds
    → Kept (accept_client (some fd) s).0 (fds ++ (fd ∷ []))
accept_Kept fd s fds (same, three, count) = elim (Bool-cases (ltb s.client_count max_clients)) [
  | inl room ↦
      let few : s.client_count < max_clients = ltb→lt s.client_count max_clients room in
      let longer = length-append fds (fd ∷ []) in
      rw (with_room fd s few) (
        (take-set s.client_count s.conn_fds fd (omega arith)
            ∙ ap (λ l. l ++ (fd ∷ [])) (same ∙ take_self max_clients fds (omega arith))
            ∙ sym (take_self max_clients (fds ++ (fd ∷ [])) (omega arith))),
        (length-set s.client_count s.conn_fds fd ∙ three),
        omega arith,
      )
  | inr full ↦
      let many : max_clients ≤ s.client_count = ground arith in
      let longer = length-append fds (fd ∷ []) in
      rw (without_room fd s many)
        ((same ∙ sym (take_front max_clients fds (fd ∷ []) (omega arith))), three, omega arith)
]

round_running : (fd : Option ℕ) (s : Server) → (main_round fd s).0.is_running ≡ s.is_running
unfolding main_round accept_client
round_running fd s = ground arith

round_Kept :
    (fd : ℕ) (s : Server) (fds : List ℕ)
    → Kept s fds
    → Kept (main_round (some fd) s).0 (fds ++ (fd ∷ []))
unfolding main_round
round_Kept fd s fds k = accept_Kept fd s fds k

idle_Kept : (s : Server) (fds : List ℕ) → Kept s fds → Kept (main_round none s).0 fds
unfolding main_round accept_client
idle_Kept s fds k = k

read_Kept :
    (r : Option (List ℕ)) (s : Server) (fds : List ℕ)
    → Kept s fds
    → Kept (step (reads r) s).0 fds × ((step (reads r) s).0.is_running ≡ s.is_running)
unfolding step
read_Kept none s fds k = (k, refl)
read_Kept (some []) s fds k = (k, refl)
read_Kept (some (c ∷ text)) s fds k = (k, refl)

interrupt_Kept :
    (s : Server) (fds : List ℕ)
    → Kept s fds
    → Kept (step interrupted s).0 fds × ((step interrupted s).0.is_running ≡ false)
unfolding step
interrupt_Kept s fds k = (k, refl)

run-Kept :
    (es : List Event) (s : Server) (fds : List ℕ) (b : Bool)
    → s.is_running ≡ b
    → Kept s fds
    → Kept (run es s).0 (fds ++ offered b es)
unfolding run
run-Kept [] s fds b h k = rw append-nil k
run-Kept (rounds none ∷ es) s fds true h k =
    rw (running_step none s h)
      (run-Kept es _ fds true (round_running none s ∙ h) (idle_Kept s fds k))
run-Kept (rounds none ∷ es) s fds false h k =
    rw (stopped_step none s h) (run-Kept es s fds false h k)
run-Kept (rounds (some fd) ∷ es) s fds true h k = rw (running_step (some fd) s h) (
    rw (sym (append_assoc fds (fd ∷ []) (offered true es))) (
      run-Kept es _ (fds ++ (fd ∷ [])) true (round_running (some fd) s ∙ h)
        (round_Kept fd s fds k)))
run-Kept (rounds (some fd) ∷ es) s fds false h k =
    rw (stopped_step (some fd) s h) (run-Kept es s fds false h k)
run-Kept (reads r ∷ es) s fds true h k =
    let (kept, same) = read_Kept r s fds k in run-Kept es _ fds true (same ∙ h) kept
run-Kept (reads r ∷ es) s fds false h k =
    let (kept, same) = read_Kept r s fds k in run-Kept es _ fds false (same ∙ h) kept
run-Kept (interrupted ∷ es) s fds true h k =
    let (kept, stopped) = interrupt_Kept s fds k in run-Kept es _ fds false stopped kept
run-Kept (interrupted ∷ es) s fds false h k =
    let (kept, stopped) = interrupt_Kept s fds k in run-Kept es _ fds false stopped kept

told-append : (out out' : List Effect) → told (out ++ out') ≡ told out ++ told out'
told-append [] out' = refl
told-append (sent fd text ∷ out) out' = ap (◌∷◌ fd) (told-append out out')
told-append (_ ∷ out) out' = told-append out out'

closes-append : (out out' : List Effect) → closes (out ++ out') ≡ closes out ++ closes out'
closes-append [] out' = refl
closes-append (closed fd ∷ out) out' = ap (◌∷◌ fd) (closes-append out out')
closes-append (_ ∷ out) out' = closes-append out out'

abbrev Quiet : List Effect → Type 0
Quiet out = (told out ≡ []) × (closes out ≡ [])

Quiet-append : (out out' : List Effect) → Quiet out → Quiet out' → Quiet (out ++ out')
Quiet-append out out' h k = (told-append out out' ∙ cc, closes-append out out' ∙ cc)

messages-Quiet : (queue : List (List ℕ)) → Quiet (map message queue)
messages-Quiet [] = (refl, refl)
messages-Quiet (text ∷ queue) = messages-Quiet queue

accept-Quiet : (fd : Option ℕ) (s : Server) → Quiet (accept_client fd s).1
unfolding accept_client
accept-Quiet fd s = ground arith

round-Quiet : (fd : Option ℕ) (s : Server) → Quiet (main_round fd s).1
unfolding main_round
round-Quiet fd s =
    let queue = (accept_client fd s).0.message_queue in
    Quiet-append (accept_client fd s).1 (map message queue) (accept-Quiet fd s)
      (messages-Quiet queue)

step-Quiet : (e : Event) (s : Server) → Quiet (step e s).1
unfolding step
step-Quiet (rounds fd) s = elim (Bool-cases s.is_running) [
  | inl running ↦
      subst (λ (r : Server × List Effect). Quiet r.1) (sym (running_step fd s running))
        (round-Quiet fd s)
  | inr stopped ↦
      subst (λ (r : Server × List Effect). Quiet r.1) (sym (stopped_step fd s stopped)) (refl, refl)
]
step-Quiet (reads none) s = (refl, refl)
step-Quiet (reads (some [])) s = (refl, refl)
step-Quiet (reads (some (c ∷ text))) s = (refl, refl)
step-Quiet interrupted s = (refl, refl)

run-Quiet : (es : List Event) (s : Server) → Quiet (run es s).1
unfolding run
run-Quiet [] s = (refl, refl)
run-Quiet (e ∷ es) s =
    let (s', out) = step e s in Quiet-append out (run es s').1 (step-Quiet e s) (run-Quiet es s')

farewell : (fds : List ℕ) → (told (quit_clients fds) ≡ fds) × (closes (quit_clients fds) ≡ fds)
unfolding quit_clients
farewell [] = (refl, refl)
farewell (fd ∷ fds) = let (t, c) = farewell fds in (ap (◌∷◌ fd) t, ap (◌∷◌ fd) c)

-- In a whole session the server counts at most three connections, as many as its array has places. It
-- admits the first three clients that come up for accept before ctrl-C; at the end it writes to just
-- these, once each and in order, and closes just these.
pub session_takes_leave :
    (es : List Event)
    → ((run es initial).0.client_count ≤ 3)
      × (length (run es initial).0.conn_fds ≡ 3)
      × (told (session es) ≡ take 3 (offered true es))
      × (closes (session es) ≡ take 3 (offered true es))
unfolding session
session_takes_leave es =
    let (same, three, count) = run-Kept es initial [] true refl (refl, refl, refl) in
    let (silent, open_still) = run-Quiet es initial in
    let s = (run es initial).0 in
    let (t, c) = farewell (take s.client_count s.conn_fds) in
    (
      omega arith,
      three,
      told-append (run es initial).1 _
          ∙ ap (λ l. l ++ told (quit_clients (take s.client_count s.conn_fds))) silent
          ∙ t
          ∙ same,
      closes-append (run es initial).1 _
          ∙ ap (λ l. l ++ closes (quit_clients (take s.client_count s.conn_fds))) open_still
          ∙ c
          ∙ same,
    )
