-- ===== src/LogServer/Replies.antt =====
-- Assignment3/server/LogServer.cpp: what the log file and the reply address become over any
-- interleaving of the receiver thread and the menu.
use unx511_unix_systems_prog.Prelude.{
  ℕ, ◌<◌, List, [], ◌∷◌, ◌++◌, take, ◌≡◌, refl, arith, ◌∙◌, sym, All,
}
use mathlib.Core.List.{append_assoc, append-nil}
use unx511_unix_systems_prog.Prelude.Int.{ℤ}
use unx511_unix_systems_prog.LogServer.{
  Server, Received, bytes, would_block, failed, Effect, sent, initial, rx_round, send_level,
  command,
}

-- A round of the receiver, or the menu's 1 with the level read.
pub data Event : Type 0 where
  receives : Received → Event
  replies : ℤ → Event

unfoldable pub step : Event → Server → Server × List Effect
step (receives r) g = rx_round r g
step (replies lvl) g = (g, send_level lvl g)

unfoldable pub run : List Event → Server → Server × List Effect
run [] g = (g, [])
run (e ∷ es) g = let (g', fs) = step e g in let (g'', fs') = run es g' in (g'', fs ++ fs')

-- The address that recvfrom gives has a length (16 for AF_INET).
abbrev pub HasSender : Event → Type 0
HasSender (receives (bytes s rem rlen)) = 0 < rlen
HasSender _ = Unit

-- The sender of the last datagram in a history.
abbrev pub last_rem : ℕ → List Event → ℕ
last_rem a [] = a
last_rem a (receives (bytes s rem rlen) ∷ es) = last_rem rem es
last_rem a (_ ∷ es) = last_rem a es

-- The bytes that a history's datagrams bring, each cut to 2047.
abbrev pub received_bytes : List Event → List ℕ
received_bytes [] = []
received_bytes (receives (bytes s rem rlen) ∷ es) = take 2047 s ++ received_bytes es
received_bytes (_ ∷ es) = received_bytes es

-- After any history of the server, server.log holds what it held before and then the bytes of the
-- datagrams received, each cut to 2047, in the order in which they came.
pub run-log_file :
    (es : List Event) (g : Server) → (run es g).0.log_file ≡ g.log_file ++ received_bytes es
unfolding run step rx_round
run-log_file [] g = sym (append-nil g.log_file)
run-log_file (receives (bytes s rem rlen) ∷ es) g =
    run-log_file es _ ∙ append_assoc g.log_file (take 2047 s) (received_bytes es)
run-log_file (receives would_block ∷ es) g = run-log_file es g
run-log_file (receives failed ∷ es) g = run-log_file es g
run-log_file (replies lvl ∷ es) g = run-log_file es g

pub run-last_sender :
    (es : List Event) (g : Server) → (run es g).0.last_sender ≡ last_rem g.last_sender es
unfolding run step rx_round
run-last_sender [] g = refl
run-last_sender (receives (bytes s rem rlen) ∷ es) g = run-last_sender es _
run-last_sender (receives would_block ∷ es) g = run-last_sender es g
run-last_sender (receives failed ∷ es) g = run-last_sender es g
run-last_sender (replies lvl ∷ es) g = run-last_sender es g

run-last_sender_len :
    (es : List Event) (g : Server)
    → All HasSender es
    → 0 < g.last_sender_len
    → 0 < (run es g).0.last_sender_len
unfolding run step rx_round
run-last_sender_len [] g h p = p
run-last_sender_len (receives (bytes s rem rlen) ∷ es) g h p = run-last_sender_len es _ h.1 h.0
run-last_sender_len (receives would_block ∷ es) g h p = run-last_sender_len es g h.1 p
run-last_sender_len (receives failed ∷ es) g h p = run-last_sender_len es g h.1 p
run-last_sender_len (replies lvl ∷ es) g h p = run-last_sender_len es g h.1 p

-- After any history in which recvfrom gives addresses of positive length, the menu's 1 sends the
-- command to the sender of the last datagram. With no datagram so far it sends the command to the
-- zero address: the message "No sender yet" is never shown.
pub reply_goes_to_last_sender :
    (es : List Event) (lvl : ℤ)
    → All HasSender es
    → send_level lvl (run es initial).0 ≡ sent (command lvl) (last_rem 0 es) ∷ []
unfolding send_level initial
reply_goes_to_last_sender es lvl h =
    ground (arith, run-last_sender_len es initial h, run-last_sender es initial)
