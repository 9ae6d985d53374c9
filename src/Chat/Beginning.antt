-- ===== src/Chat/Beginning.antt =====
-- Lab9: what the starts of the two programs come to.
use unx511_unix_systems_prog.Prelude.{
  ℕ, false, ◌&&◌, none, some, List, tally, ◌≡◌, ◌⊎◌, inl, inr, arith, Option-cases, Bool-cases,
}
use unx511_unix_systems_prog.Prelude.Int.{negsuc}
use unx511_unix_systems_prog.Prelude.Setup.{Act, opens, closes, bound, said, ok, exits}
use unx511_unix_systems_prog.Chat.Startup.{ServerAnswers, server_start, ClientAnswers, client_start}

-- The client's start gives its descriptor with nothing closed, or it ends with -1 and has closed
-- what it opened.
pub client_start-closes :
    (a : ClientAnswers)
    → ((fd : ℕ) × ((client_start a).1 ≡ ok fd)
        × (tally opens (client_start a).0 ≡ 1)
        × (tally closes (client_start a).0 ≡ 0))
      ⊎ (((client_start a).1 ≡ exits (negsuc 0))
          × (tally opens (client_start a).0 ≡ tally closes (client_start a).0))
unfolding client_start
client_start-closes a = elim (Option-cases a.argument) [
  | inl e ↦ inr (ground (arith, e))
  | inr (text, e) ↦ elim (Option-cases a.socket) [
    | inl e' ↦ inr (ground (arith, e, e'))
    | inr (fd, e') ↦ elim (Bool-cases (a.connect_ok && a.thread_ok)) [
      | inl good ↦ inl (
        fd,
        ground (arith, e, e', good),
        ground (arith, e, e', good),
        ground (arith, e, e', good),
      )
      | inr bad ↦ inr (ground (arith, e, e', bad))
    ]
  ]
]

abbrev pub binds : Act → ℕ
binds (bound fd e) = 1
binds _ = 0

abbrev pub says : Act → ℕ
says (said t) = 1
says _ = 0

-- A server that has an argument but no socket, or whose bind fails, says once that it listens, is bound
-- nowhere, and goes on to its loop.
pub server_always_listens :
    (a : ServerAnswers) (text : List ℕ)
    → a.argument ≡ some text
    → (a.socket ≡ none) ⊎ (a.bind_ok ≡ false)
    → ((server_start a).1 ≡ ok a.socket)
      × (tally says (server_start a).0 ≡ 1)
      × (tally binds (server_start a).0 ≡ 0)
unfolding server_start
server_always_listens a text e h = elim (Option-cases a.socket) [
  | inl s ↦ ground (arith, e, s)
  | inr (fd, s) ↦ ground (arith, e, s, h)
]
