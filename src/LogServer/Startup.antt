-- ===== src/LogServer/Startup.antt =====
-- Assignment3/server/LogServer.cpp: main from its first line to its last, and the display of the log
-- file.
use unx511_unix_systems_prog.Prelude.{
  ℕ, zero, suc, ◌%◌, Bool, true, false, not, ◌&&◌, Option, none, some, List, [], ◌∷◌, ◌++◌,
  if◌then◌else◌, take, drop,
}
use unx511_unix_systems_prog.Prelude.Int.{ℤ, pos, negsuc}
use unx511_unix_systems_prog.Prelude.Bytes.{codes}
use unx511_unix_systems_prog.Prelude.Setup.{
  internet, Act, closed, set_nonblocking, reused_address, bound, started_thread, complained, Setup,
  Result, ok, exits, ◌>>=◌, ◌>>◌, pure, act, check, open_or_exit, atoi,
}
use unx511_unix_systems_prog.LogServer.{Server, initial, Effect, menu_loop}

-- What the system answers: during main's first part, and when the receiver thread opens its log file.
pub record Answers : Type 0 where
  pub bind_ip : Option (List ℕ)
  pub bind_port : Option (List ℕ)
  pub socket : Option ℕ
  pub getfl_ok : Bool
  pub setfl_ok : Bool
  pub inet_pton : List ℕ → Option ℕ
  pub bind_ok : Bool
  pub thread_ok : Bool
  pub open_ok : Bool

abbrev pub default_port : ℕ
default_port = 55555

-- The default for what is not positive.
abbrev positive_or_default : ℤ → ℕ
positive_or_default (pos zero) = default_port
positive_or_default (pos (suc n)) = suc n
positive_or_default (negsuc n) = default_port

unfoldable pub chosen_port : Option (List ℕ) → ℕ
chosen_port none = default_port
chosen_port (some s) = positive_or_default (atoi s)

-- A text that inet_pton does not read leaves INADDR_ANY.
abbrev address_or_any : Option ℕ → ℕ
address_or_any none = 0
address_or_any (some ip) = ip

-- INADDR_ANY is zero; the environment's address replaces it.
unfoldable pub chosen_address : (List ℕ → Option ℕ) → Option (List ℕ) → ℕ
chosen_address inet_pton none = 0
chosen_address inet_pton (some []) = 0
chosen_address inet_pton (some (c ∷ s)) = address_or_any (inet_pton (c ∷ s))

abbrev make_nonblocking : Answers → Bool
make_nonblocking a = if not a.getfl_ok then false else (if not a.setfl_ok then false else true)

-- main up to the menu: the descriptor.
unfoldable pub start : Answers → Setup ℕ
start a = do
  fd ← open_or_exit a.socket (complained (codes "server socket") ∷ []) (pos 1)
  check (make_nonblocking a) (complained (codes "server nonblocking") ∷ []) (pos 1)
  act (set_nonblocking fd)
  act (reused_address fd)
  let addr = internet (chosen_port a.bind_port % 65536) (chosen_address a.inet_pton a.bind_ip)
  check a.bind_ok (complained (codes "server bind") ∷ []) (pos 1)
  act (bound fd addr)
  check a.thread_ok (complained (codes "server pthread_create") ∷ []) (pos 1)
  act started_thread
  pure fd

-- shutdownHandler.
unfoldable pub shutdown_handler : Server → Server
shutdown_handler g = record g { is_running = false }

-- How main ends: with 0, or in pthread_join for as long as the receiver's loop goes on. That loop runs
-- while g_is_running holds, if the thread could open its log file; a thread that could not has ended.
pub data Ending : Type 0 where
  stopped joining : Ending

abbrev pub finish : Bool → ℕ → Server → List Act × Ending
finish open_ok fd g = if open_ok && g.is_running then ([], joining) else (closed fd ∷ [], stopped)

-- main behind its start, on standard input `s`; `none` means that the fuel ran out.
abbrev pub serve :
    Bool → ℕ → Option (Server × List Effect) → Option (List Act × List Effect × Ending)
serve open_ok fd none = none
serve open_ok fd (some (g, shown)) = let (es, end) = finish open_ok fd g in some (es, shown, end)

-- main, as long as no ctrl-C reaches it: the exit of its start, or what the menu and the end do.
pub data Run : Type 0 where
  failed : ℤ → Run
  served : Option (List Act × List Effect × Ending) → Run

abbrev pub run_started : Bool → ℕ → List ℕ → Result ℕ → Run
run_started open_ok f s (exits z) = failed z
run_started open_ok f s (ok fd) = served (serve open_ok fd (menu_loop f s initial))

unfoldable pub main : ℕ → Answers → List ℕ → List Act × Run
main f a s = let (es, r) = start a in (es, run_started a.open_ok f s r)

-- The buffer of dump_log.
abbrev pub dump_len : ℕ
dump_len = 4096

-- Its loop on what is left of the file, from round k on: what is written; a write that fails ends it.
-- `none` means that the fuel ran out.
unfoldable pub dump_rounds : ℕ → ℕ → (ℕ → Bool) → List ℕ → Option (List ℕ)
dump_rounds zero k write_ok s = none
dump_rounds (suc f) k write_ok [] = some []
dump_rounds (suc f) k write_ok (c ∷ s) =
    let chunk = take dump_len (c ∷ s) in
    let more = dump_rounds f (suc k) write_ok (drop dump_len (c ∷ s)) in
    if write_ok k then elim more [ none ↦ none | some out ↦ some (chunk ++ out) ] else some []
