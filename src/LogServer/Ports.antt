-- ===== src/LogServer/Ports.antt =====
-- The two programs of Assignment3 together: the server listens where the client sends.
use unx511_unix_systems_prog.Prelude.{
  ℕ, ◌%◌, false, Option, none, some, List, Memᴰ, ◌≡◌, refl, sym, ap, subst, ◌∙◌, arith, inl, inr,
  Option-cases,
}
use unx511_unix_systems_prog.Prelude.Int.{pos}
use unx511_unix_systems_prog.Prelude.Setup.{internet, bound, ok}
use unx511_unix_systems_prog.Logger
use unx511_unix_systems_prog.LogServer.Startup.{Answers, chosen_port, chosen_address, start}
use unx511_unix_systems_prog.LogServer.Serving.{start-ok}

client_port :
    (c : Logger.InitAnswers) (l : Logger.Logger)
    → l.is_running ≡ false
    → (Logger.initialize_log c l).1 ≡ pos 0
    → (Logger.initialize_log c l).0.server.sin_port ≡ Logger.chosen_port c.env_port % 65536
unfolding Logger.initialize_log
client_port c l stopped h = elim (Option-cases c.socket) [
  | inl none_open ↦ ground (arith, none_open, stopped, h)
  | inr (fd, open_fd) ↦ ground (arith, open_fd, stopped, h)
]

chosen_ports : (p : Option (List ℕ)) → Logger.chosen_port p ≡ chosen_port p
unfolding chosen_port
chosen_ports none = refl
chosen_ports (some s) = ground arith

-- A client that is not running and whose InitializeLog succeeds, and a server that starts, with the same
-- text for the port in their environments, or with none in both: the server is bound to the
-- port to which the client sends.
pub ports_agree :
    (a : Answers) (fd : ℕ) (c : Logger.InitAnswers) (l : Logger.Logger)
    → (start a).1 ≡ ok fd
    → l.is_running ≡ false
    → (Logger.initialize_log c l).1 ≡ pos 0
    → c.env_port ≡ a.bind_port
    → Memᴰ
        (bound fd (
          internet
            (Logger.initialize_log c l).0.server.sin_port
            (chosen_address a.inet_pton a.bind_ip)))
        (start a).0
ports_agree a fd c l h stopped h' same =
    let port : (Logger.initialize_log c l).0.server.sin_port ≡ chosen_port a.bind_port % 65536 =
      client_port c l stopped h'
      ∙ ap (λ p. p % 65536) (chosen_ports c.env_port ∙ ap chosen_port same) in
    let there : Memᴰ
        (bound fd
          (internet (chosen_port a.bind_port % 65536) (chosen_address a.inet_pton a.bind_ip)))
        (start a).0 =
      subst (Memᴰ _) (sym (start-ok a fd h)) (Memᴰ.tail (Memᴰ.tail (Memᴰ.tail (Memᴰ.head refl)))) in
    subst (λ n. Memᴰ (bound fd (internet n (chosen_address a.inet_pton a.bind_ip))) (start a).0)
      (sym port) there
