-- ===== src/LogServer/Lines.antt =====
-- The two programs of Assignment3 together: a line that the client logs, as it comes to stand in the
-- server's file.
use unx511_unix_systems_prog.Prelude.{
  ℕ, ◌≤◌, List, [], ◌∷◌, ◌++◌, length, take, ◌≡◌, refl, arith, ap, ◌∙◌, length-append, length-take,
  take_self, take-append, sym,
}
use unx511_unix_systems_prog.Logger.{Logger, Entry, sent, log, log_line, datagram}
use unx511_unix_systems_prog.Logger.Datagram.{log-datagram}
use unx511_unix_systems_prog.LogServer.{Server, bytes, rx_round}

pub short_line : (line : List ℕ) → length line ≤ 2046 → take 2047 (datagram line) ≡ line ++ (0 ∷ [])
unfolding datagram
short_line line h =
    ap (λ t. take 2047 (t ++ (0 ∷ []))) (take_self 2047 line (omega arith))
    ∙ take_self 2047 (line ++ (0 ∷ [])) (omega (arith, length-append {0} line (0 ∷ [])))

pub long_line : (line : List ℕ) → 2047 ≤ length line → take 2047 (datagram line) ≡ take 2047 line
unfolding datagram
long_line line h =
    let all : length (take 2047 line) ≡ 2047 = omega (arith, length-take {0} 2047 line) in
    ap (λ n. take n (take 2047 line ++ (0 ∷ []))) (sym all) ∙ take-append (take 2047 line) (0 ∷ [])

taken :
    (s : List ℕ) (rem rlen : ℕ) (g : Server)
    → (rx_round (bytes s rem rlen) g).0.log_file ≡ g.log_file ++ take 2047 s
unfolding rx_round
taken s rem rlen g = refl

-- A datagram that Log sends, received by the server, is put behind what server.log held: the formatted
-- line and a zero byte, if the line has at most 2046 bytes; of a longer line its first 2047 bytes, and
-- no zero.
pub logged_line :
    (dt : List ℕ) (e : Entry) (l : Logger) (d : ℕ) (s : List ℕ) (rem rlen : ℕ) (g : Server)
    → log dt e l ≡ sent d s l.server ∷ []
    → let line = log_line dt e in
      let file = (rx_round (bytes s rem rlen) g).0.log_file in
      (length line ≤ 2046 → file ≡ g.log_file ++ (line ++ (0 ∷ [])))
      × (2047 ≤ length line → file ≡ g.log_file ++ take 2047 line)
logged_line dt e l d s rem rlen g q =
    let arrives =
      taken s rem rlen g ∙ ap (λ t. g.log_file ++ take 2047 t) (log-datagram dt e l d s q) in
    (
      (λ short. arrives ∙ ap (◌++◌ g.log_file) (short_line (log_line dt e) short)),
      λ long. arrives ∙ ap (◌++◌ g.log_file) (long_line (log_line dt e) long),
    )
