-- ===== src/ParallelFile/Events.antt =====
-- assignment1/parallel_file/main.c, signals.c and logger.c: the sizes that are typed and the files
-- they give, and what the parent's handler writes into syslog.log.
use unx511_unix_systems_prog.Prelude.{
  ℕ, ◌-◌, Bool, Option, none, some, List, [], ◌∷◌, ◌++◌, if◌then◌else◌, map, take,
}
use unx511_unix_systems_prog.Prelude.Int.{ℤ}
use unx511_unix_systems_prog.Prelude.Bytes.{codes, show_nat, scan_stream}
use unx511_unix_systems_prog.ParallelFile.{generate_binary_file, Signal, sigusr1, sigusr2}

unfoldable pub or_junk : ℤ → Option ℤ → ℤ
or_junk junk none = junk
or_junk junk (some z) = z

-- One prompt: a read that finds no number leaves the variable.
unfoldable pub read_size : ℤ → List ℕ → ℤ × List ℕ
unfolding or_junk
read_size junk s = let (v, rest) = scan_stream s in (or_junk junk v, rest)

-- worker1.bin to worker3.bin, with what the three variables hold before, the input, and each file's
-- buffer after rand.
unfoldable pub main_files : ℤ × ℤ × ℤ → List ℕ → List ℕ × List ℕ × List ℕ → List ℕ × List ℕ × List ℕ
main_files (j1, j2, j3) s (b1, b2, b3) =
    let (size1, s1) = read_size j1 s in
    let (size2, s2) = read_size j2 s1 in
    let (size3, s3) = read_size j3 s2 in
    (generate_binary_file size1 b1, generate_binary_file size2 b2, generate_binary_file size3 b3)

-- sizeof(message).
abbrev pub message_len : ℕ
message_len = 256

-- The two texts; each begins with the bytes of its sign, in UTF-8.
unfoldable pub full_text : Signal → ℕ → List ℕ
full_text sigusr1 worker =
    226 ∷ 154 ∷ 160 ∷ 239 ∷ 184 ∷ 143 ∷ codes " Worker "
    ++ (show_nat worker ++ (codes " exceeded memory limit" ++ (10 ∷ [])))
full_text sigusr2 worker =
    226 ∷ 156 ∷ 133 ∷ codes " Worker "
    ++ (show_nat worker ++ (codes " completed its task" ++ (10 ∷ [])))

-- snprintf.
unfoldable pub message : Signal → ℕ → List ℕ
message signal worker = take (message_len - 1) (full_text signal worker)

-- Whether the log file can be opened, and whether the lock is free.
pub record LogAnswers : Type 0 where
  pub open_ok : Bool
  pub lock_ok : Bool

-- ca_log_event: the text is appended under the lock; what syslog.log holds after it.
unfoldable pub log_event : LogAnswers → List ℕ → List ℕ → List ℕ
log_event a text log = if a.open_ok then (if a.lock_ok then log ++ text else log) else log

-- ca_signal_handler when no other signal interrupts it: what is printed, and the log after it.
unfoldable pub handle : Signal → ℕ → LogAnswers → List ℕ → List ℕ × List ℕ
handle signal worker a log = (message signal worker, log_event a (message signal worker) log)

-- One such signal after the other, each with the worker that sent it.
unfoldable pub handle_all : List (Signal × ℕ × LogAnswers) → List ℕ → List ℕ × List ℕ
handle_all [] log = ([], log)
handle_all ((signal, worker, a) ∷ es) log =
    let (shown, log') = handle signal worker a log in
    let (more, log'') = handle_all es log' in (shown ++ more, log'')

-- A signal that the handler takes from its first line to its last, with the signals whose handlers run
-- between its printf and its ca_log_event. sa_mask is empty, so that only the signal's own kind is
-- kept off meanwhile: those inside are of the other kind, and nothing interrupts them.
pub record Handling : Type 0 where
  pub signal : Signal
  pub worker : ℕ
  pub answers : LogAnswers
  pub within : List (ℕ × LogAnswers)

abbrev other : Signal → Signal
other sigusr1 = sigusr2
other sigusr2 = sigusr1

abbrev pub inside : Handling → List (Signal × ℕ × LogAnswers)
inside h = map (λ p. (other h.signal, p.0, p.1)) h.within

unfoldable pub handle_nested : Handling → List ℕ → List ℕ × List ℕ
handle_nested h log =
    let text = message h.signal h.worker in
    let (shown, log') = handle_all (inside h) log in (text ++ shown, log_event h.answers text log')

unfoldable pub handle_signals : List Handling → List ℕ → List ℕ × List ℕ
handle_signals [] log = ([], log)
handle_signals (h ∷ hs) log =
    let (shown, log') = handle_nested h log in
    let (more, log'') = handle_signals hs log' in (shown ++ more, log'')
