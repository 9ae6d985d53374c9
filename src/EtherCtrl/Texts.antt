-- ===== src/EtherCtrl/Texts.antt =====
-- Lab3/etherCtrl.cpp: the hardware address as text.
use unx511_unix_systems_prog.Prelude.{
  ℕ, ◌+◌, ◌-◌, ◌*◌, ◌/◌, ◌%◌, ◌<◌, List, [], ◌∷◌, ltb, if◌then◌else◌, length, ◌≡◌, refl, ap, arith,
}
use unx511_unix_systems_prog.EtherCtrl.{hex_digit, hex_byte, mac_text}

-- A reader of such texts: two hexadecimal digits and a separator, again and again.
abbrev pub unhex : ℕ → ℕ
unhex c = if ltb c 58 then c - 48 else c - 55

abbrev pub scan_mac : List ℕ → List ℕ
scan_mac [] = []
scan_mac (a ∷ []) = []
scan_mac (a ∷ b ∷ []) = (16 * unhex a + unhex b) ∷ []
scan_mac (a ∷ b ∷ c ∷ s) = (16 * unhex a + unhex b) ∷ scan_mac s

unhex-hex_digit : (d : ℕ) → d < 16 → unhex (hex_digit d) ≡ d
unfolding hex_digit
unhex-hex_digit d h = ground arith

unhex_pair : (b : ℕ) → b < 256 → 16 * unhex (hex_digit (b / 16)) + unhex (hex_digit (b % 16)) ≡ b
unhex_pair b h =
    rw (unhex-hex_digit (b / 16) (omega arith), unhex-hex_digit (b % 16) (omega arith))
      (omega arith)

scan_mac-hex_byte : (b : ℕ) (s : List ℕ) → b < 256 → scan_mac (hex_byte b (58 ∷ s)) ≡ b ∷ scan_mac s
unfolding hex_byte
scan_mac-hex_byte b s h = ap (λ x. x ∷ scan_mac s) (unhex_pair b h)

scan_mac-last : (b : ℕ) → b < 256 → scan_mac (hex_byte b []) ≡ b ∷ []
unfolding hex_byte
scan_mac-last b h = ap (λ x. x ∷ []) (unhex_pair b h)

-- The text of a hardware address has 17 characters, and its six bytes can be read back from it.
pub scan_mac-mac_text :
    (mac : ℕ → ℕ)
    → ((i : ℕ) → mac i < 256)
    → (length (mac_text mac) ≡ 17)
      × (scan_mac (mac_text mac) ≡ mac 0 ∷ mac 1 ∷ mac 2 ∷ mac 3 ∷ mac 4 ∷ mac 5 ∷ [])
unfolding mac_text hex_byte
scan_mac-mac_text mac h = (
  refl,
  rw (
    scan_mac-hex_byte (mac 0) _ (h 0),
    scan_mac-hex_byte (mac 1) _ (h 1),
    scan_mac-hex_byte (mac 2) _ (h 2),
    scan_mac-hex_byte (mac 3) _ (h 3),
    scan_mac-hex_byte (mac 4) _ (h 4),
    scan_mac-last (mac 5) (h 5),
  ),
)
