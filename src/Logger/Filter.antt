-- ===== src/Logger/Filter.antt =====
-- Assignment3/client/Logger.cpp: how a command of the server changes the filter.
use unx511_unix_systems_prog.Prelude.{
  ℕ, ◌≤◌, ◌<◌, Option, none, some, List, [], ◌∷◌, ◌++◌, take, ◌≡◌, refl, arith,
}
use unx511_unix_systems_prog.Prelude.Int.{ℤ, pos, negsuc}
use unx511_unix_systems_prog.Prelude.Bytes.{c_string, codes, scan_int}
use unx511_unix_systems_prog.Logger.{
  Logger, bytes, level_of, accepted_level, rx_round, scan_command, level_value,
}

level_value-level_of : (n : ℕ) → n ≤ 3 → level_value (level_of n) ≡ n
level_value-level_of n h = ground arith

abbrev pub SameButFilter : Logger → Logger → Type 0
SameButFilter l l' = l' ≡ record l { filter = l'.filter }

-- A datagram changes the filter only if it scans as a command with a level from 0 to 3, and then to
-- that level. It changes nothing else.
pub rx_round-bytes :
    (s : List ℕ) (l : Logger)
    → let buf = take 2047 s ++ (0 ∷ []) in
      let l' = (rx_round (bytes s) l).0 in
      SameButFilter l l'
      × ((n : ℕ) → scan_command buf ≡ some (pos n) → n ≤ 3 → level_value l'.filter ≡ n)
      × (((n : ℕ) → scan_command buf ≡ some (pos n) → 3 < n) → l'.filter ≡ l.filter)
unfolding rx_round
rx_round-bytes s l = (
  refl,
  (λ n e h. rw e (ground (arith, level_value-level_of n))),
  λ h. rejected (scan_command (take 2047 s ++ (0 ∷ []))) refl h,
)
  where
    rejected :
        (o : Option ℤ)
        → scan_command (take 2047 s ++ (0 ∷ [])) ≡ o
        → ((n : ℕ) → scan_command (take 2047 s ++ (0 ∷ [])) ≡ some (pos n) → 3 < n)
        → accepted_level (scan_command (take 2047 s ++ (0 ∷ []))) l.filter ≡ l.filter
    rejected none e h = rw e
    rejected (some (negsuc n)) e h = rw e
    rejected (some (pos n)) e h = rw e (ground (arith, h n e))

-- A C string that begins with the literal scans as the number behind it.
pub scan_command_literal :
    (buf s : List ℕ) → c_string buf ≡ codes "Set Log Level=" ++ s → scan_command buf ≡ scan_int s
unfolding scan_command
scan_command_literal buf s e = rw e
