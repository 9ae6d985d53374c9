-- ===== src/Logger/Lifecycle.antt =====
-- Assignment3/client/Logger.cpp: the logger over any sequence of calls and receiver rounds.
use unx511_unix_systems_prog.Prelude.{
  ℕ, ◌+◌, Bool, true, false, Option, none, some, List, [], ◌∷◌, ◌++◌, ◌==◌, if◌then◌else◌, tally,
  tally-append, ◌≡◌, refl, ◌↔◌, ◌≢◌, arith,
}
use unx511_unix_systems_prog.Prelude.Int.{ℤ, pos}
use unx511_unix_systems_prog.Logger.{
  Logger, InitAnswers, Entry, Received, bytes, would_block, failed, LogLevel, Effect, opened,
  closed, thread_started, thread_joined, initial, initialize_log, set_log_level, exit_log, log,
  rx_round,
}

-- One call of the module's functions, or one round of its receiver thread.
pub data Call : Type 0 where
  initializes : InitAnswers → Call
  sets : LogLevel → Call
  logs : List ℕ → Entry → Call
  receives : Received → Call
  exits : Call

abbrev drop_result : Logger × ℤ × List Effect → Logger × List Effect
drop_result (l, rc, es) = (l, es)

-- The receiver's round runs only while the thread's loop does.
unfoldable pub step : Call → Logger → Logger × List Effect
step (initializes a) l = drop_result (initialize_log a l)
step (sets level) l = (set_log_level level l, [])
step (logs dt e) l = (l, log dt e l)
step (receives r) l = if l.is_running then rx_round r l else (l, [])
step exits l = exit_log l

unfoldable pub run : List Call → Logger → Logger × List Effect
run [] l = (l, [])
run (c ∷ cs) l = let (l', es) = step c l in let (l'', es') = run cs l' in (l'', es ++ es')

abbrev pub open_count : Option ℕ → ℕ
open_count none = 0
open_count (some d) = 1

abbrev pub thread_count : Bool → ℕ
thread_count true = 1
thread_count false = 0

-- A running logger has its descriptor and its thread, one that is not running has neither.
pub record IsValid (l : Logger) : Type 0 where
  pub descriptor : open_count l.fd ≡ thread_count l.is_running
  pub thread : l.rx_thread ≡ l.is_running

-- How often an effect opens descriptor d, and how often it closes it.
abbrev pub opens : ℕ → Effect → ℕ
opens d (opened x) = if x == d then 1 else 0
opens d _ = 0

abbrev pub closes : ℕ → Effect → ℕ
closes d (closed x) = if x == d then 1 else 0
closes d _ = 0

abbrev holds : ℕ → Option ℕ → ℕ
holds d none = 0
holds d (some x) = if x == d then 1 else 0

abbrev pub starts : Effect → ℕ
starts thread_started = 1
starts _ = 0

abbrev pub joins : Effect → ℕ
joins thread_joined = 1
joins _ = 0

pub initial-IsValid : IsValid initial
unfolding initial
initial-IsValid = record { descriptor = refl; thread = refl }

step-IsValid : (c : Call) (l : Logger) → IsValid l → IsValid (step c l).0
unfolding step initialize_log set_log_level exit_log rx_round
step-IsValid (initializes a) l v = ground arith
step-IsValid (sets level) l v = ground arith
step-IsValid (logs dt e) l v = ground arith
step-IsValid (receives would_block) l v = ground arith
step-IsValid (receives failed) l v = ground arith
step-IsValid (receives (bytes s)) l v = ground arith
step-IsValid exits l v = ground arith

-- What a call takes in, it or a later call gives back.
record Balanced (l l' : Logger) (es : List Effect) : Type 0 where
  descriptors : (d : ℕ) → tally (opens d) es + holds d l.fd ≡ tally (closes d) es + holds d l'.fd
  threads : tally starts es + thread_count l.rx_thread ≡ tally joins es + thread_count l'.rx_thread

step_descriptors :
    (c : Call) (l : Logger) (d : ℕ)
    → IsValid l
    → let (l', es) = step c l in
      tally (opens d) es + holds d l.fd ≡ tally (closes d) es + holds d l'.fd
unfolding step initialize_log set_log_level exit_log rx_round log
step_descriptors (initializes a) l d v = ground arith
step_descriptors (sets level) l d v = ground arith
step_descriptors (logs dt e) l d v = ground arith
step_descriptors (receives would_block) l d v = ground arith
step_descriptors (receives failed) l d v = ground arith
step_descriptors (receives (bytes s)) l d v = ground arith
step_descriptors exits l d v = ground arith

step_threads :
    (c : Call) (l : Logger)
    → IsValid l
    → let (l', es) = step c l in
      tally starts es + thread_count l.rx_thread ≡ tally joins es + thread_count l'.rx_thread
unfolding step initialize_log set_log_level exit_log rx_round log
step_threads (initializes a) l v = ground arith
step_threads (sets level) l v = ground arith
step_threads (logs dt e) l v = ground arith
step_threads (receives would_block) l v = ground arith
step_threads (receives failed) l v = ground arith
step_threads (receives (bytes s)) l v = ground arith
step_threads exits l v = ground arith

step-Balanced : (c : Call) (l : Logger) → IsValid l → Balanced l (step c l).0 (step c l).1
step-Balanced c l v = record {
  descriptors = λ d. step_descriptors c l d v;
  threads = step_threads c l v;
}

-- After any calls and receiver rounds from the start, the logger has an open descriptor and a
-- receiver thread if it is running, and neither if it is not.
pub run-IsValid : (cs : List Call) (l : Logger) → IsValid l → IsValid (run cs l).0
unfolding run
run-IsValid [] l v = v
run-IsValid (c ∷ cs) l v = run-IsValid cs (step c l).0 (step-IsValid c l v)

run-Balanced : (cs : List Call) (l : Logger) → IsValid l → Balanced l (run cs l).0 (run cs l).1
unfolding run
run-Balanced [] l v = record { descriptors = λ d. refl; threads = refl }
run-Balanced (c ∷ cs) l v =
    let first = step-Balanced c l v in
    let (l', es) = step c l in
    let rest = run-Balanced cs l' (step-IsValid c l v) in
    record {
      descriptors = λ d. omega (
        arith,
        first.descriptors d,
        rest.descriptors d,
        tally-append (opens d) es (run cs l').1,
        tally-append (closes d) es (run cs l').1,
      );
      threads = omega (
        arith,
        first.threads,
        rest.threads,
        tally-append starts es (run cs l').1,
        tally-append joins es (run cs l').1,
      );
    }

no_descriptor : (d : ℕ) (l : Logger) → IsValid l → l.is_running ≡ false → holds d l.fd ≡ 0
no_descriptor d l v h = ground arith

-- From the initial state, after any calls and receiver rounds at the end of which the logger is not
-- running: each descriptor has been closed as often as it was opened, and each thread that was started
-- has been joined.
pub run_releases :
    (cs : List Call)
    → (run cs initial).0.is_running ≡ false
    → ((d : ℕ) → tally (opens d) (run cs initial).1 ≡ tally (closes d) (run cs initial).1)
      × (tally starts (run cs initial).1 ≡ tally joins (run cs initial).1)
unfolding initial
run_releases cs h =
    let v = run-IsValid cs initial initial-IsValid in
    let b = run-Balanced cs initial initial-IsValid in
    (λ d. omega (arith, b.descriptors d, no_descriptor d (run cs initial).0 v h), ground arith)

-- InitializeLog on a logger that is not running returns 0 exactly if the logger runs afterwards.
-- If it returns otherwise, it has closed every descriptor that it opened.
pub initialize_log_outcome :
    (a : InitAnswers) (l : Logger)
    → l.is_running ≡ false
    → let (l', rc, es) = initialize_log a l in
      ((rc ≡ pos 0) ↔ (l'.is_running ≡ true))
      × (rc ≢ pos 0 → (l'.fd ≡ none) × ((d : ℕ) → tally (opens d) es ≡ tally (closes d) es))
unfolding initialize_log
initialize_log_outcome a l h = ground arith
