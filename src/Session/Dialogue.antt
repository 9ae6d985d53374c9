-- ===== src/Session/Dialogue.antt =====
-- Lab6: the two programs together, under every schedule of their calls.
use unx511_unix_systems_prog.Prelude.{
  ℕ, zero, suc, ◌-◌, ◌^◌, ◌<◌, ◌≤◌, List, [], ◌∷◌, ◌++◌, length, replicate, All, ◌≡◌, ◌≢◌, some,
  get_elem?, refl, arith, ap, ◌∙◌, take_self, drop-all, All-append,
}
use unx511_unix_systems_prog.Prelude.Bytes.{
  codes, show_nat, c_string, overwrite, bytes_eq_iff, overwrite_ends, IsText, c_string-IsText,
  IsDigit, show_nat-IsDigit, length-show_nat,
}
use unx511_unix_systems_prog.Session.{
  buffer_size, ServerPc, reads_pid, writes_sleep, reads_done, writes_quit, closes, closed, ClientPc,
  reading, answering, ended, System, read_text, server_reads, server_at, client_at, pid_text,
  answer, client_reads, server_writes, server_waits, client_waits, Turn, server_moves, client_moves,
  step, run, connected,
}

-- The stages of the protocol.
pub data Stage : Type 0 where
  start pid_sent pid_read pid_answered pid_heard sleep_sent sleep_read done_answered done_heard
        quit_sent quit_read server_gone finished :
      Stage

-- What each program's next call makes of a stage; the other calls block.
abbrev pub next : Turn → Stage → Stage
next server_moves start = pid_sent
next client_moves pid_sent = pid_read
next client_moves pid_read = pid_answered
next server_moves pid_answered = pid_heard
next server_moves pid_heard = sleep_sent
next client_moves sleep_sent = sleep_read
next client_moves sleep_read = done_answered
next server_moves done_answered = done_heard
next server_moves done_heard = quit_sent
next server_moves quit_sent = server_gone
next client_moves quit_sent = quit_read
next server_moves quit_read = finished
next client_moves server_gone = finished
next t s = s

abbrev pub next_all : List Turn → Stage → Stage
next_all [] s = s
next_all (t ∷ ts) s = next_all ts (next t s)

abbrev at : ServerPc → ClientPc → List ℕ → List ℕ → List (List ℕ) → List (List ℕ) → System
at server client to_client to_server heard served = record {
  server = server;
  client = client;
  to_client = to_client;
  to_server = to_server;
  heard = heard;
  served = served;
}

abbrev pub system : ℕ → Stage → System
system pid start = connected
system pid pid_sent = at reads_pid reading (codes "Pid") [] [] []
system pid pid_read = at reads_pid (answering (pid_text pid)) [] [] [] (codes "Pid" ∷ [])
system pid pid_answered = at reads_pid reading [] (pid_text pid) [] (codes "Pid" ∷ [])
system pid pid_heard = at writes_sleep reading [] [] (pid_text pid ∷ []) (codes "Pid" ∷ [])
system pid sleep_sent =
    at reads_done reading (codes "Sleep") [] (pid_text pid ∷ []) (codes "Pid" ∷ [])
system pid sleep_read =
    at reads_done (answering (codes "Done")) [] [] (pid_text pid ∷ [])
      (codes "Pid" ∷ codes "Sleep" ∷ [])
system pid done_answered =
    at reads_done reading [] (codes "Done") (pid_text pid ∷ []) (codes "Pid" ∷ codes "Sleep" ∷ [])
system pid done_heard =
    at writes_quit reading [] [] (pid_text pid ∷ codes "Done" ∷ [])
      (codes "Pid" ∷ codes "Sleep" ∷ [])
system pid quit_sent =
    at closes reading (codes "Quit") [] (pid_text pid ∷ codes "Done" ∷ [])
      (codes "Pid" ∷ codes "Sleep" ∷ [])
system pid quit_read =
    at closes ended [] [] (pid_text pid ∷ codes "Done" ∷ [])
      (codes "Pid" ∷ codes "Sleep" ∷ codes "Quit" ∷ [])
system pid server_gone =
    at closed reading (codes "Quit") [] (pid_text pid ∷ codes "Done" ∷ [])
      (codes "Pid" ∷ codes "Sleep" ∷ [])
system pid finished =
    at closed ended [] [] (pid_text pid ∷ codes "Done" ∷ [])
      (codes "Pid" ∷ codes "Sleep" ∷ codes "Quit" ∷ [])

length-pid_text : (pid : ℕ) → pid < 2 ^ 31 → length (pid_text pid) ≤ 31
unfolding pid_text
length-pid_text pid h = omega (arith, length-show_nat 9 pid (omega arith))

digits-IsText : (s : List ℕ) → All IsDigit s → IsText s
digits-IsText [] h = tt
digits-IsText (c ∷ s) h = ((λ e. omega arith), digits-IsText s h.1)

pid_text-IsText : (pid : ℕ) → IsText (pid_text pid)
unfolding pid_text
pid_text-IsText pid =
    All-append (λ c. c ≢ 0) (codes "This client has pid ") (show_nat pid)
      (c_string-IsText (codes "This client has pid "))
      (digits-IsText (show_nat pid) (show_nat-IsDigit pid))

get_elem-replicate : (m n v : ℕ) → n < m → get_elem? (replicate m v) n ≡ some v
get_elem-replicate zero n v h = absurd (omega arith)
get_elem-replicate (suc m) zero v h = refl
get_elem-replicate (suc m) (suc n) v h = get_elem-replicate m n v (omega arith)

pid_read_whole : (pid : ℕ) → pid < 2 ^ 31 → read_text (pid_text pid) ≡ pid_text pid
pid_read_whole pid h =
    let short = length-pid_text pid h in
    let whole = take_self buffer_size (pid_text pid) (omega arith) in
    ap (λ s. c_string (overwrite s (replicate buffer_size 0))) whole
    ∙ (bytes_eq_iff (c_string (overwrite (pid_text pid) (replicate buffer_size 0)))
          (pid_text pid)).0
        ((overwrite_ends (pid_text pid) (replicate buffer_size 0) (pid_text-IsText pid)
            (omega arith)).1
          (get_elem-replicate buffer_size (length (pid_text pid)) 0 (omega arith)))

-- The two calls that handle the text with the pid.
asks_pid :
    (pid : ℕ) → pid < 2 ^ 31 → client_at pid reading (system pid pid_sent) ≡ system pid pid_read
unfolding client_at client_reads answer
asks_pid pid h =
    ap (λ s. at reads_pid (answering s) [] [] [] (codes "Pid" ∷ []))
      (let short = length-pid_text pid h in
        take_self (buffer_size - 1) (pid_text pid) (omega arith))

hears_pid :
    (pid : ℕ) → pid < 2 ^ 31 → server_at reads_pid (system pid pid_answered) ≡ system pid pid_heard
unfolding server_at server_reads pid_text
hears_pid pid h =
    let short = length-pid_text pid h in
    ap (λ r. at writes_sleep reading [] r (read_text (pid_text pid) ∷ []) (codes "Pid" ∷ []))
      (drop-all buffer_size (pid_text pid) (omega arith))
    ∙ ap (λ r. at writes_sleep reading [] [] (r ∷ []) (codes "Pid" ∷ [])) (pid_read_whole pid h)

step_stage :
    (pid : ℕ)
    → pid < 2 ^ 31
    → (t : Turn) (s : Stage) → step pid t (system pid s) ≡ system pid (next t s)
unfolding step server_at server_writes server_reads server_waits client_at client_reads client_waits
    answer
step_stage pid h server_moves start = refl
step_stage pid h client_moves start = refl
step_stage pid h server_moves pid_sent = refl
step_stage pid h client_moves pid_sent = asks_pid pid h
step_stage pid h server_moves pid_read = refl
step_stage pid h client_moves pid_read = refl
step_stage pid h server_moves pid_answered = hears_pid pid h
step_stage pid h client_moves pid_answered = refl
step_stage pid h server_moves pid_heard = refl
step_stage pid h client_moves pid_heard = refl
step_stage pid h server_moves sleep_sent = refl
step_stage pid h client_moves sleep_sent = refl
step_stage pid h server_moves sleep_read = refl
step_stage pid h client_moves sleep_read = refl
step_stage pid h server_moves done_answered = refl
step_stage pid h client_moves done_answered = refl
step_stage pid h server_moves done_heard = refl
step_stage pid h client_moves done_heard = refl
step_stage pid h server_moves quit_sent = refl
step_stage pid h client_moves quit_sent = refl
step_stage pid h server_moves quit_read = refl
step_stage pid h client_moves quit_read = refl
step_stage pid h server_moves server_gone = refl
step_stage pid h client_moves server_gone = refl
step_stage pid h server_moves finished = refl
step_stage pid h client_moves finished = refl

run_stage :
    (pid : ℕ)
    → pid < 2 ^ 31
    → (ts : List Turn) (s : Stage) → run pid ts (system pid s) ≡ system pid (next_all ts s)
unfolding run
run_stage pid h [] s = refl
run_stage pid h (t ∷ ts) s = ap (run pid ts) (step_stage pid h t s) ∙ run_stage pid h ts (next t s)

-- The server and the client in turn.
abbrev pub round_robin : ℕ → List Turn
round_robin zero = []
round_robin (suc n) = server_moves ∷ client_moves ∷ round_robin n

ends : (s : Stage) → next_all (round_robin 8) s ≡ finished
ends start = refl
ends pid_sent = refl
ends pid_read = refl
ends pid_answered = refl
ends pid_heard = refl
ends sleep_sent = refl
ends sleep_read = refl
ends done_answered = refl
ends done_heard = refl
ends quit_sent = refl
ends quit_read = refl
ends server_gone = refl
ends finished = refl

next_all-append :
    (ts us : List Turn) (s : Stage) → next_all (ts ++ us) s ≡ next_all us (next_all ts s)
next_all-append [] us s = refl
next_all-append (t ∷ ts) us s = next_all-append ts us (next t s)

-- Under every schedule of their calls the two programs go through the stages of the protocol, in which
-- a call that is not next changes nothing. After any schedule, eight rounds in turn bring them to the
-- end: both have closed, nothing is under way, the client has read "Pid", "Sleep" and "Quit", and the
-- server the text with the client's pid and "Done".
pub dialogue_outcome :
    (pid : ℕ) (ts : List Turn)
    → pid < 2 ^ 31
    → (run pid ts connected ≡ system pid (next_all ts start))
      × (run pid (ts ++ round_robin 8) connected ≡ system pid finished)
dialogue_outcome pid ts h = (
  run_stage pid h ts start,
  run_stage pid h (ts ++ round_robin 8) start
      ∙ ap (system pid) (next_all-append ts (round_robin 8) start ∙ ends (next_all ts start)),
)
