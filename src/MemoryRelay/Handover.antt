-- ===== src/MemoryRelay/Handover.antt =====
-- Lab10: a client names the next one before it has written its message.
use unx511_unix_systems_prog.Prelude.{ℕ, ◌+◌, ◌<◌, true, [], ◌∷◌, ◌≡◌, ◌≢◌, arith}
use unx511_unix_systems_prog.MemoryRelay.{
  poll, clear, from, text, advance, System, runs, step, run, num_messages, message_text,
}

-- Client n has named client m and has not yet written its own message; m is at its test. If n makes
-- its two writes first, m shows n as the sender and n's message. If m makes its three steps first,
-- it shows n as the sender and, as the message, whatever stood there before n's turn, while n is
-- still about to replace it.
pub handover_outcome :
    (n m i j : ℕ) (s : System)
    → n ≢ m
    → (s.clients n).pc ≡ clear i
    → s.mem.src_client_no ≡ n
    → s.mem.dest_client_no ≡ m
    → (s.clients m).pc ≡ poll j
    → (s.clients m).is_running ≡ true
    → j < num_messages
    → ((run (runs n ∷ runs n ∷ runs m ∷ runs m ∷ runs m ∷ []) s).1
        ≡ from n ∷ text (message_text (i + 1) n) ∷ [])
      × ((run (runs m ∷ runs m ∷ runs m ∷ []) s).1 ≡ from n ∷ text s.mem.message ∷ [])
      × (((run (runs m ∷ runs m ∷ runs m ∷ []) s).0.clients n).pc ≡ clear i)
unfolding run step advance
handover_outcome n m i j s h en es ed em er hj = (ground arith, ground arith, ground arith)
