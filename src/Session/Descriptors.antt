-- ===== src/Session/Descriptors.antt =====
-- Lab6: what the two starts come to.
use unx511_unix_systems_prog.Prelude.{
  ℕ, ◌&&◌, tally, ◌≡◌, ◌⊎◌, inl, inr, arith, Option-cases, Bool-cases,
}
use unx511_unix_systems_prog.Prelude.Int.{pos}
use unx511_unix_systems_prog.Prelude.Setup.{Act, opens, closes, unlinked, ok, exits}
use unx511_unix_systems_prog.Session.Startup.{ServerAnswers, server_start, server_end, server_calls}

abbrev pub unlinks : Act → ℕ
unlinks (unlinked path) = 1
unlinks _ = 0

-- A server whose start succeeds closes both sockets that it opens and removes its path before and
-- after; one whose start fails ends with status 1, closes nothing and leaves the path.
pub server_gives_back :
    (a : ServerAnswers)
    → ((fds : ℕ × ℕ) × ((server_start a).1 ≡ ok fds)
        × (tally opens (server_calls a) ≡ 2)
        × (tally closes (server_calls a) ≡ 2)
        × (tally unlinks (server_calls a) ≡ 2))
      ⊎ (((server_start a).1 ≡ exits (pos 1))
          × (tally closes (server_calls a) ≡ 0)
          × (tally unlinks (server_calls a) ≡ 1))
unfolding server_start server_calls server_end
server_gives_back a = elim (Option-cases a.socket) [
  | inl s ↦ inr (ground (arith, s), ground (arith, s), ground (arith, s))
  | inr (fd, s) ↦ elim (Bool-cases (a.bind_ok && a.listen_ok)) [
    | inr fails ↦ inr (ground (arith, s, fails), ground (arith, s, fails), ground (arith, s, fails))
    | inl good ↦ elim (Option-cases a.accept) [
      | inl c ↦
          inr (ground (arith, s, good, c), ground (arith, s, good, c), ground (arith, s, good, c))
      | inr (client, c) ↦ inl (
        (fd, client),
        ground (arith, s, good, c),
        ground (arith, s, good, c),
        ground (arith, s, good, c),
        ground (arith, s, good, c),
      )
    ]
  ]
]
