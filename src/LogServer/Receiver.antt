-- ===== src/LogServer/Receiver.antt =====
-- Assignment3/server/LogServer.cpp: rx_thread_func as a whole. Its rounds are those up to the time when
-- g_is_running is cleared.
use unx511_unix_systems_prog.Prelude.{
  ℕ, Option, none, some, List, [], ◌∷◌, ◌++◌, map, ◌≡◌, refl, ap, ◌∙◌,
}
use unx511_unix_systems_prog.LogServer.{Server, Received, Effect, rx_round}
use unx511_unix_systems_prog.LogServer.Replies.{
  receives, run, step, received_bytes, run-log_file, last_rem, run-last_sender,
}

unfoldable pub rounds : List Received → Server → Server × List Effect
rounds [] g = (g, [])
rounds (r ∷ rs) g = let (g', es) = rx_round r g in let (g'', es') = rounds rs g' in (g'', es ++ es')

-- How the thread ends: without a log file, or with the file's descriptor closed.
pub data Ended : Type 0 where
  unopened : Ended
  closed : ℕ → Ended

-- open's answer is an argument; O_TRUNC empties the file.
unfoldable pub rx_thread_func : Option ℕ → List Received → Server → Server × List Effect × Ended
rx_thread_func none rs g = (g, [], unopened)
rx_thread_func (some lfd) rs g =
    let (g', es) = rounds rs (record g { log_file = [] }) in (g', es, closed lfd)

rounds-run : (rs : List Received) (g : Server) → rounds rs g ≡ run (map receives rs) g
unfolding rounds run step
rounds-run [] g = refl
rounds-run (r ∷ rs) g = let (g', es) = rx_round r g in ap (λ p. (p.0, es ++ p.1)) (rounds-run rs g')

-- The receiver thread, when open grants it the log file, leaves in it the bytes of its datagrams, each
-- cut to 2047, in their order, and nothing of an earlier run, and the last datagram's sender as the
-- one to reply to; it closes the file. When open fails it ends at once: no datagram is read, and
-- the sender stays what it was.
pub rx_thread_func_outcome :
    (lfd : ℕ) (rs : List Received) (g : Server)
    → let (g', es, end) = rx_thread_func (some lfd) rs g in
      (g'.log_file ≡ received_bytes (map receives rs))
      × (g'.last_sender ≡ last_rem g.last_sender (map receives rs))
      × (end ≡ closed lfd)
      × (rx_thread_func none rs g ≡ (g, [], unopened))
unfolding rx_thread_func
rx_thread_func_outcome lfd rs g =
    let g0 = record g { log_file = [] } in
    let same = rounds-run rs g0 in
    (
      ap (λ p. p.0.log_file) same ∙ run-log_file (map receives rs) g0,
      ap (λ p. p.0.last_sender) same ∙ run-last_sender (map receives rs) g0,
      refl,
      refl,
    )
