-- ===== src/Travel/Program.antt =====
-- Assignment3/client/TravelSimulator.cpp: main as a whole, over the Logger. The laps are counted from
-- outside: ctrl-C clears isRunning.
use unx511_unix_systems_prog.Prelude.{ℕ, suc, some, List, [], ◌∷◌, ◌++◌, map}
use unx511_unix_systems_prog.Prelude.Bytes.{codes}
use unx511_unix_systems_prog.Logger.{debug, Received, Entry, InitAnswers, Effect, initial}
use unx511_unix_systems_prog.Logger.Lifecycle.{Call, initializes, sets, logs, receives, exits}
use unx511_unix_systems_prog.Logger.Lifecycle
use unx511_unix_systems_prog.Travel.{Line, say, fleet, drive_laps}

-- What belongs to one call of Log: what the receiver thread has got before it, the time, and
-- __FILE__, __func__ and __LINE__.
pub record Context : Type 0 where
  pub received : List Received
  pub time : List ℕ
  pub file : List ℕ
  pub func : List ℕ
  pub line : ℕ

unfoldable pub entry : Context → Line → Entry
entry cx l = record {
  level = l.level;
  file = cx.file;
  func = cx.func;
  line = cx.line;
  message = some l.message;
}

-- The calls for some lines, from the k-th call of Log on.
unfoldable pub log_calls : ℕ → (ℕ → Context) → List Line → List Call
log_calls k cx [] = []
log_calls k cx (l ∷ ls) =
    map receives (cx k).received ++ (logs (cx k).time (entry (cx k) l) ∷ log_calls (suc k) cx ls)

-- All that is logged in n laps; `junk` is what the cars' efficiencies hold before they are set.
unfoldable pub lines : ℕ → ℕ → List Line
lines n junk =
    say (codes "Created the objects")
    ++ ((drive_laps n 1 (fleet junk)).2
        ++ (say (codes "Displayed the report") ++ say (codes "Deleted the objects")))

-- InitializeLog, SetLogLevel(DEBUG), the lines, ExitLog.
unfoldable pub main : InitAnswers → (ℕ → Context) → ℕ → ℕ → List Effect
main a cx n junk =
    (Lifecycle.run (initializes a ∷ sets debug ∷ log_calls 0 cx (lines n junk) ++ (exits ∷ []))
      initial).1
