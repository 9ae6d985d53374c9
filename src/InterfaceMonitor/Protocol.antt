-- ===== src/InterfaceMonitor/Protocol.antt =====
-- assignment2/src: the two programs' first exchange. The network monitor reads the interface monitor's
-- messages into a buffer that nobody has cleared.
use unx511_unix_systems_prog.Prelude.{
  ℕ, ◌+◌, some, List, [], ◌∷◌, length, get_elem?, ◌≡◌, ◌≢◌, refl, arith, Bool-cases, inl, inr, ◌∙◌,
  true, false,
}
use unx511_unix_systems_prog.Prelude.Bytes.{
  c_string, overwrite, bytes_eq, overwrite_ends, length-overwrite, overwrite_behind,
}
use unx511_unix_systems_prog.NetworkMonitor
use unx511_unix_systems_prog.NetworkMonitor.{ready, monitor, monitoring, said_started, shake_hands}
use unx511_unix_systems_prog.InterfaceMonitor.{Effect, wrote, step, serve, run, session, reads}

-- What a program writes to the socket.
abbrev pub written : List Effect → List (List ℕ)
written [] = []
written (wrote s ∷ es) = s ∷ written es
written (_ ∷ es) = written es

-- A text read into the buffer is not recognised if no zero stands behind it.
unrecognised :
    (s buf : List ℕ)
    → (bytes_eq (c_string (overwrite s buf)) s ≡ true → get_elem? buf (length s) ≡ some 0)
    → get_elem? buf (length s) ≢ some 0
    → bytes_eq (c_string (overwrite s buf)) s ≡ false
unrecognised s buf only h = elim (Bool-cases (bytes_eq (c_string (overwrite s buf)) s)) [
  | inl e ↦ absurd (h (only e))
  | inr e ↦ e
]

-- The interface monitor writes "Ready", and "Monitoring" once it has read "Monitor". The network
-- monitor, reading just these two into a buffer of 128 bytes, answers "Monitor" and says that the
-- monitor has started if the buffer held zeros at 5 and 10. Without the zero at 10 it only answers,
-- without the one at 5 it does nothing.
pub handshake_outcome :
    (i fd : ℕ) (junk : List ℕ)
    → length junk ≡ 128
    → (written (session (reads (some monitor) ∷ [])).1 ≡ ready ∷ monitoring ∷ [])
      × (get_elem? junk 5 ≡ some 0
          → get_elem? junk 10 ≡ some 0
          → shake_hands i fd junk ready monitoring
            ≡ NetworkMonitor.wrote fd monitor ∷ said_started (i + 1) ∷ [])
      × (get_elem? junk 5 ≡ some 0
          → get_elem? junk 10 ≢ some 0
          → shake_hands i fd junk ready monitoring ≡ NetworkMonitor.wrote fd monitor ∷ [])
      × (get_elem? junk 5 ≢ some 0 → shake_hands i fd junk ready monitoring ≡ [])
unfolding shake_hands session run step serve
handshake_outcome i fd junk h =
    let first = overwrite_ends ready junk (omega arith) (omega arith) in
    let buffer = overwrite ready junk in
    let same = length-overwrite ready junk in
    let behind = overwrite_behind ready junk 10 (omega arith) in
    let second = overwrite_ends monitoring buffer (omega arith) (omega arith) in
    (
      refl,
      (λ z z'. rw (first.1 z, second.1 (behind ∙ z'))),
      (λ z z'. rw (first.1 z, unrecognised monitoring buffer second.0 (λ e. z' (cc)))),
      λ z. rw (unrecognised ready junk first.0 z),
    )
