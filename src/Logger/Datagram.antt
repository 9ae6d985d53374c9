-- ===== src/Logger/Datagram.antt =====
-- Assignment3/client/Logger.cpp: the bounds of the datagrams that Log sends.
use unx511_unix_systems_prog.Prelude.{
  ℕ, ◌+◌, ◌≤◌, List, [], ◌∷◌, length, take, ◌≡◌, arith, ap, ◌∙◌, length-append, length-take,
  All-take, take_self, min,
}
use unx511_unix_systems_prog.Prelude.Bytes.{c_string, IsText, c_string-append_zero}
use unx511_unix_systems_prog.Logger.{Logger, Entry, sent, log, log_line, datagram, log_buf_len}

-- A datagram fits the buffer: it has one byte more than the text, and 2048 at most.
pub length-datagram : (s : List ℕ) → length (datagram s) ≡ min (length s) 2047 + 1
unfolding datagram
length-datagram s = omega (arith, length-append {0} (take 2047 s) (0 ∷ []), length-take {0} 2047 s)

c_string-datagram : (s : List ℕ) → IsText s → c_string (datagram s) ≡ take 2047 s
unfolding datagram
c_string-datagram s h = c_string-append_zero (take 2047 s) [] (All-take _ 2047 s h)

pub log-datagram :
    (dt : List ℕ) (e : Entry) (l : Logger) (d : ℕ) (s : List ℕ)
    → log dt e l ≡ sent d s l.server ∷ []
    → s ≡ datagram (log_line dt e)
unfolding log
log-datagram dt e l d s q = ground arith

-- Whatever Log sends is at most LOG_BUF_LEN bytes long, and as a C string it is the first 2047 bytes
-- of the formatted line (all of it, if it is shorter), provided that the texts in the line hold no
-- zero byte.
pub log_datagram :
    (dt : List ℕ) (e : Entry) (l : Logger) (d : ℕ) (s : List ℕ)
    → IsText (log_line dt e)
    → log dt e l ≡ sent d s l.server ∷ []
    → (length s ≤ log_buf_len)
      × (c_string s ≡ take 2047 (log_line dt e))
      × (length (log_line dt e) ≤ 2047 → c_string s ≡ log_line dt e)
log_datagram dt e l d s h q =
    let line = log_line dt e in
    let is_datagram = log-datagram dt e l d s q in
    let text = ap c_string is_datagram ∙ c_string-datagram line h in
    (
      omega (arith, ap length is_datagram, length-datagram line),
      text,
      λ short. text ∙ take_self 2047 line short,
    )
