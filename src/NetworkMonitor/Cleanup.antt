-- ===== src/NetworkMonitor/Cleanup.antt =====
-- assignment2/src/networkMonitor.cpp: what ctrl-C gives back and whom it signals.
use unx511_unix_systems_prog.Prelude.{
  ℕ, suc, Option, none, some, List, [], ◌∷◌, ◌++◌, map, ◌≡◌, refl, arith, ap, ◌∙◌, sym,
}
use unx511_unix_systems_prog.Prelude.Int.{ℤ}
use mathlib.Core.List.{append-nil, append_assoc}
use unx511_unix_systems_prog.NetworkMonitor.{
  Monitor, Effect, closed, interrupted, unlinked, Arrival, Readiness, fork_children, shake_hands,
  accept_one, accept_clients, answer_read, answer_one, answer_clients, poll_clients,
  shut_down_clients, close_server, cleanup_and_exit, session,
}

-- The processes that get SIGINT, and the descriptors that are closed, in order.
abbrev pub signalled : List Effect → List ℤ
signalled [] = []
signalled (interrupted pid ∷ es) = pid ∷ signalled es
signalled (_ ∷ es) = signalled es

abbrev pub closes : List Effect → List ℕ
closes [] = []
closes (closed fd ∷ es) = fd ∷ closes es
closes (_ ∷ es) = closes es

-- The descriptors that accept gave.
abbrev pub accepted_one : Option ℕ → List ℕ
accepted_one none = []
accepted_one (some fd) = fd ∷ []

abbrev pub accepted : List Arrival → List ℕ
accepted [] = []
accepted (a ∷ as') = accepted_one a.client_fd ++ accepted as'

signalled-append : (es fs : List Effect) → signalled (es ++ fs) ≡ signalled es ++ signalled fs
signalled-append [] fs = refl
signalled-append (interrupted pid ∷ es) fs = ap (◌∷◌ pid) (signalled-append es fs)
signalled-append (_ ∷ es) fs = signalled-append es fs

closes-append : (es fs : List Effect) → closes (es ++ fs) ≡ closes es ++ closes fs
closes-append [] fs = refl
closes-append (closed fd ∷ es) fs = ap (◌∷◌ fd) (closes-append es fs)
closes-append (_ ∷ es) fs = closes-append es fs

-- Effects that neither signal nor close.
abbrev Quiet : List Effect → Type 0
Quiet es = (signalled es ≡ []) × (closes es ≡ [])

Quiet-append : (es fs : List Effect) → Quiet es → Quiet fs → Quiet (es ++ fs)
Quiet-append es fs h k = (signalled-append es fs ∙ cc, closes-append es fs ∙ cc)

shake_hands-Quiet : (i fd : ℕ) (junk r1 r2 : List ℕ) → Quiet (shake_hands i fd junk r1 r2)
unfolding shake_hands
shake_hands-Quiet i fd junk r1 r2 = ground arith

answer_one-Quiet : (i fd : ℕ) (r : Readiness) → Quiet (answer_one i fd r)
unfolding answer_one answer_read
answer_one-Quiet i fd r = ground arith

answer_clients-Quiet :
    (i : ℕ) (fds : List ℕ) (rs : List Readiness) → Quiet (answer_clients i fds rs)
unfolding answer_clients
answer_clients-Quiet i [] rs = (refl, refl)
answer_clients-Quiet i (fd ∷ fds) [] = (refl, refl)
answer_clients-Quiet i (fd ∷ fds) (r ∷ rs) =
    Quiet-append (answer_one i fd r) (answer_clients (suc i) fds rs) (answer_one-Quiet i fd r)
      (answer_clients-Quiet (suc i) fds rs)

poll_clients-Quiet :
    (fds : List ℕ) (rounds : List (Option (List Readiness))) → Quiet (poll_clients fds rounds)
unfolding poll_clients
poll_clients-Quiet fds [] = (refl, refl)
poll_clients-Quiet fds (none ∷ rounds) = poll_clients-Quiet fds rounds
poll_clients-Quiet fds (some rs ∷ rounds) =
    Quiet-append (answer_clients 0 fds rs) (poll_clients fds rounds) (answer_clients-Quiet 0 fds rs)
      (poll_clients-Quiet fds rounds)

-- What the loops make of the monitor's variables.
record Grown (s s' : Monitor) (fds : List ℕ) : Type 0 where
  sockets : s'.client_sockets ≡ s.client_sockets ++ fds
  pids : s'.child_pids ≡ s.child_pids
  server : s'.server_sock ≡ s.server_sock

accept_one-Grown :
    (i : ℕ) (a : Arrival) (o : Option ℕ) (s : Monitor)
    → Grown s (accept_one i a o s).0 (accepted_one o) × Quiet (accept_one i a o s).1
unfolding accept_one
accept_one-Grown i a none s = (
  record { sockets = sym (append-nil s.client_sockets); pids = refl; server = refl },
  (refl, refl),
)
accept_one-Grown i a (some fd) s = (
  record { sockets = refl; pids = refl; server = refl },
  shake_hands-Quiet i fd a.junk a.first_read a.second_read,
)

accept_clients-Grown :
    (i : ℕ) (as' : List Arrival) (s : Monitor)
    → Grown s (accept_clients i as' s).0 (accepted as') × Quiet (accept_clients i as' s).1
unfolding accept_clients
accept_clients-Grown i [] s = (
  record { sockets = sym (append-nil s.client_sockets); pids = refl; server = refl },
  (refl, refl),
)
accept_clients-Grown i (a ∷ as') s =
    let (g, q) = accept_one-Grown i a a.client_fd s in
    let (g', q') = accept_clients-Grown (suc i) as' (accept_one i a a.client_fd s).0 in
    (
      record {
        sockets =
            g'.sockets
            ∙ ap (λ l. l ++ accepted as') g.sockets
            ∙ append_assoc s.client_sockets (accepted_one a.client_fd) (accepted as');
        pids = g'.pids ∙ g.pids;
        server = g'.server ∙ g.server;
      },
      Quiet-append (accept_one i a a.client_fd s).1
          (accept_clients (suc i) as' (accept_one i a a.client_fd s).0).1 q q',
    )

fork_children-pids :
    (pids : List ℤ) (s : Monitor)
    → let s' = fork_children pids s in
      (s'.child_pids ≡ s.child_pids ++ pids)
      × (s'.client_sockets ≡ s.client_sockets)
      × (s'.server_sock ≡ s.server_sock)
unfolding fork_children
fork_children-pids [] s = (sym (append-nil s.child_pids), refl, refl)
fork_children-pids (pid ∷ pids) s =
    let (all, sockets, server) =
      fork_children-pids pids (record s { child_pids = s.child_pids ++ (pid ∷ []) }) in
    (all ∙ append_assoc s.child_pids (pid ∷ []) pids, sockets, server)

signalled-interrupted : (pids : List ℤ) → signalled (map interrupted pids) ≡ pids
signalled-interrupted [] = refl
signalled-interrupted (pid ∷ pids) = ap (◌∷◌ pid) (signalled-interrupted pids)

closes-interrupted : (pids : List ℤ) → closes (map interrupted pids) ≡ []
closes-interrupted [] = refl
closes-interrupted (pid ∷ pids) = closes-interrupted pids

signalled-shut_down_clients : (fds : List ℕ) → signalled (shut_down_clients fds) ≡ []
unfolding shut_down_clients
signalled-shut_down_clients [] = refl
signalled-shut_down_clients (fd ∷ fds) = signalled-shut_down_clients fds

closes-shut_down_clients : (fds : List ℕ) → closes (shut_down_clients fds) ≡ fds
unfolding shut_down_clients
closes-shut_down_clients [] = refl
closes-shut_down_clients (fd ∷ fds) = ap (◌∷◌ fd) (closes-shut_down_clients fds)

-- The handler of ctrl-C signals exactly the process ids that are kept, and closes every client's
-- socket and then the server's, each once.
cleanup_lem :
    (s : Monitor) (server : ℕ)
    → s.server_sock ≡ some server
    → (signalled (cleanup_and_exit s) ≡ s.child_pids)
      × (closes (cleanup_and_exit s) ≡ s.client_sockets ++ (server ∷ []))
unfolding cleanup_and_exit close_server
cleanup_lem s server e = (
  rw e (
      signalled-append (shut_down_clients s.client_sockets) _
      ∙ ap (λ l. l ++ signalled (map interrupted s.child_pids ++ (closed server ∷ unlinked ∷ [])))
          (signalled-shut_down_clients s.client_sockets)
      ∙ signalled-append (map interrupted s.child_pids) (closed server ∷ unlinked ∷ [])
      ∙ append-nil _
      ∙ signalled-interrupted s.child_pids),
  rw e (
      closes-append (shut_down_clients s.client_sockets) _
      ∙ ap (◌++◌ (closes (shut_down_clients s.client_sockets))) (
          closes-append (map interrupted s.child_pids) (closed server ∷ unlinked ∷ [])
          ∙ ap (λ l. l ++ (server ∷ [])) (closes-interrupted s.child_pids))
      ∙ ap (λ l. l ++ (server ∷ [])) (closes-shut_down_clients s.client_sockets)),
)

-- Over a whole run of the network monitor that ctrl-C ends, SIGINT goes to just the values that fork
-- returned, in order and each once, a -1 of a failed fork among them; and just the descriptors that
-- accept gave are closed, and then the server's.
pub session_gives_back :
    (server : ℕ) (pids : List ℤ) (arrivals : List Arrival) (rounds : List (Option (List Readiness)))
    → let es = session server pids arrivals rounds in
      (signalled es ≡ pids) × (closes es ≡ accepted arrivals ++ (server ∷ []))
unfolding session
session_gives_back server pids arrivals rounds =
    let s0 : Monitor = record { client_sockets = []; child_pids = []; server_sock = some server } in
    let s1 = fork_children pids s0 in
    let s2 = (accept_clients 0 arrivals s1).0 in
    let es = (accept_clients 0 arrivals s1).1 in
    let (children, sockets, socket) = fork_children-pids pids s0 in
    let (grown, quiet) = accept_clients-Grown 0 arrivals s1 in
    let quiet_rounds = poll_clients-Quiet s2.client_sockets rounds in
    let (signals, closing) = cleanup_lem s2 server (grown.server ∙ socket) in
    let before = Quiet-append es (poll_clients s2.client_sockets rounds) quiet quiet_rounds in
    (
      ap signalled
            (sym (append_assoc es (poll_clients s2.client_sockets rounds) (cleanup_and_exit s2)))
          ∙ signalled-append (es ++ poll_clients s2.client_sockets rounds) (cleanup_and_exit s2)
          ∙ ap (λ l. l ++ signalled (cleanup_and_exit s2)) before.0
          ∙ signals
          ∙ grown.pids
          ∙ children,
      ap closes
            (sym (append_assoc es (poll_clients s2.client_sockets rounds) (cleanup_and_exit s2)))
          ∙ closes-append (es ++ poll_clients s2.client_sockets rounds) (cleanup_and_exit s2)
          ∙ ap (λ l. l ++ closes (cleanup_and_exit s2)) before.1
          ∙ closing
          ∙ ap (λ l. l ++ (server ∷ [])) (grown.sockets ∙ ap (λ l. l ++ accepted arrivals) sockets),
    )
