-- ===== src/LogServer/Serving.antt =====
-- Assignment3/server/LogServer.cpp: what main's start comes to, and what is shown of the log file.
use unx511_unix_systems_prog.Prelude.{
  ℕ, zero, suc, ◌%◌, ◌<◌, Bool, true, false, ◌&&◌, some, List, [], ◌∷◌, ◌++◌, take, drop, length,
  length-drop, take-append-drop, ◌≡◌, tally, ◌↔◌, refl, sym, ap, ◌∙◌, arith, inl, inr, Bool-cases,
  Option-cases, ◌⊎◌,
}
use mathlib.Core.List.{append_assoc}
use unx511_unix_systems_prog.Prelude.Int.{pos}
use unx511_unix_systems_prog.Prelude.Setup.{
  internet, Act, opened, set_nonblocking, reused_address, bound, started_thread, ok, exits,
}
use unx511_unix_systems_prog.LogServer.Startup.{
  Answers, chosen_port, chosen_address, start, dump_len, dump_rounds,
}

-- dump_log ends, with more fuel than bytes. What it shows is the front of the file, and the whole file if no write fails.
pub dump_rounds_total :
    (f k : ℕ) (write_ok : ℕ → Bool) (s : List ℕ)
    → length s < f
    → (out : List ℕ) × (rest : List ℕ) × (dump_rounds f k write_ok s ≡ some out)
      × (out ++ rest ≡ s)
      × (((i : ℕ) → write_ok i ≡ true) → out ≡ s)
unfolding dump_rounds
dump_rounds_total zero k write_ok s h = absurd (omega arith)
dump_rounds_total (suc f) k write_ok [] h = ([], [], refl, refl, λ all. refl)
dump_rounds_total (suc f) k write_ok (c ∷ s) h =
    let (out, rest, run, front, whole) =
      dump_rounds_total f (suc k) write_ok (drop dump_len (c ∷ s))
        (omega (arith, length-drop {0} dump_len (c ∷ s))) in
    let chunk = take dump_len (c ∷ s) in
    elim (Bool-cases (write_ok k)) [
      | inl good ↦ (
        chunk ++ out,
        rest,
        rw (good, run) refl,
        append_assoc chunk out rest
            ∙ ap (λ t. chunk ++ t) front
            ∙ take-append-drop dump_len (c ∷ s),
        λ all. ap (λ t. chunk ++ t) (whole all) ∙ take-append-drop dump_len (c ∷ s),
      )
      | inr bad ↦ (
        [],
        c ∷ s,
        rw bad refl,
        refl,
        λ all. (let clash : true ≡ false = sym (all k) ∙ bad in cc),
      )
    ]

pub start-ok :
    (a : Answers) (fd : ℕ)
    → (start a).1 ≡ ok fd
    → (start a).0
      ≡ opened fd
        ∷ set_nonblocking fd
        ∷ reused_address fd
        ∷ bound fd
            (internet (chosen_port a.bind_port % 65536) (chosen_address a.inet_pton a.bind_ip))
        ∷ started_thread
        ∷ []
unfolding start
start-ok a fd h = ground (arith, h)

abbrev pub starts : Act → ℕ
starts started_thread = 1
starts _ = 0

start_iff :
    (a : Answers) (fd : ℕ)
    → ((start a).1 ≡ ok fd) ↔ (
        (a.socket ≡ some fd)
        × (a.getfl_ok ≡ true)
        × (a.setfl_ok ≡ true)
        × (a.bind_ok ≡ true)
        × (a.thread_ok ≡ true))
unfolding start
start_iff a fd = ground arith

pub start_exits :
    (a : Answers)
    → ((fd : ℕ) × ((start a).1 ≡ ok fd))
      ⊎ (((start a).1 ≡ exits (pos 1)) × (tally starts (start a).0 ≡ 0))
unfolding start
start_exits a = elim (Option-cases a.socket) [
  | inl none_open ↦ inr (ground (arith, none_open))
  | inr (fd, open_fd) ↦
      elim (Bool-cases ((a.getfl_ok && a.setfl_ok) && (a.bind_ok && a.thread_ok))) [
        | inl all ↦ inl (fd, ground (arith, open_fd, all))
        | inr some_fails ↦ inr (ground (arith, open_fd, some_fails))
      ]
]

-- main's start succeeds with a descriptor exactly if every call that it looks at does; otherwise the
-- program ends with status 1, and no thread has been started.
pub start_outcome :
    (a : Answers) (fd : ℕ)
    → (((start a).1 ≡ ok fd) ↔ (
        (a.socket ≡ some fd)
        × (a.getfl_ok ≡ true)
        × (a.setfl_ok ≡ true)
        × (a.bind_ok ≡ true)
        × (a.thread_ok ≡ true)))
      × (((d : ℕ) × ((start a).1 ≡ ok d))
          ⊎ (((start a).1 ≡ exits (pos 1)) × (tally starts (start a).0 ≡ 0)))
start_outcome a fd = (start_iff a fd, start_exits a)
