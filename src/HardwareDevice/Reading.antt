-- ===== src/HardwareDevice/Reading.antt =====
-- Lab5/kernel/hardwareDevice.c: hardware_device_read.
use unx511_unix_systems_prog.Prelude.{
  ℕ, ◌+◌, ◌-◌, ◌≤◌, ◌<◌, Bool, true, List, [], ◌∷◌, ◌++◌, ltb, length, take, drop, ◌≡◌, refl, arith,
  Bool-cases, inl, inr, ap, ◌∙◌, sym, length-drop, take_self, min,
}
use unx511_unix_systems_prog.Prelude.{take-nil, take-add, drop-drop, drop-all, ltb→lt}
use unx511_unix_systems_prog.Prelude.Int.{pos}
use unx511_unix_systems_prog.HardwareDevice.{Device, buf_len, hardware_device_read}

read_ok :
    (d : Device) (len off : ℕ)
    → off < buf_len
    → hardware_device_read d len off true ≡ (
      pos (min len (buf_len - off)),
      take (min len (buf_len - off)) (drop off d.buffer),
      off + min len (buf_len - off),
    )
unfolding hardware_device_read
read_ok d len off h = ground arith

read_past :
    (d : Device) (len off : ℕ) (ok : Bool)
    → buf_len ≤ off
    → hardware_device_read d len off ok ≡ (pos 0, [], off)
unfolding hardware_device_read
read_past d len off ok h = ground arith

take_past :
    (m n off : ℕ) (buf : List ℕ) → length buf ≤ off → take m (drop off buf) ≡ take n (drop off buf)
take_past m n off buf h = rw (drop-all off buf h, take-nil m, take-nil n)

two_pieces :
    (len off more : ℕ) (buf : List ℕ)
    → length buf ≡ buf_len
    → let m = min len (buf_len - off) in
      take m (drop off buf) ++ take more (drop (off + m) buf) ≡ take (len + more) (drop off buf)
two_pieces len off more buf h =
    rw (← drop-drop off (min len (buf_len - off)) buf)
      (take-add (min len (buf_len - off)) more (drop off buf) ∙ last_piece)
  where
    last_piece :
        take (min len (buf_len - off) + more) (drop off buf) ≡ take (len + more) (drop off buf)
    last_piece = elim (Bool-cases (ltb len (buf_len - off))) [
      | inl short ↦ ap (λ n. take (n + more) (drop off buf)) (ground arith)
      | inr long ↦
          take_self _ (drop off buf) (ground (arith, length-drop {0} off buf))
          ∙ sym (take_self _ (drop off buf) (ground (arith, length-drop {0} off buf)))
    ]

-- Reads of any lengths one after the other, while the buffer stays as it is.
pub read_all : Device → ℕ → List ℕ → List ℕ
read_all d off [] = []
read_all d off (len ∷ lens) =
    let (r, bytes, off') = hardware_device_read d len off true in bytes ++ read_all d off' lens

abbrev pub sum : List ℕ → ℕ
sum [] = 0
sum (x ∷ xs) = x + sum xs

-- Reads of any lengths one after the other, from an offset inside the buffer or at its end, while
-- the buffer stays as it is: together they give the buffer from the offset on, in order and without
-- a gap, as many bytes as they ask for, and all up to its end if they ask for more.
pub read_all-take :
    (d : Device) (lens : List ℕ) (off : ℕ)
    → length d.buffer ≡ buf_len
    → off ≤ buf_len
    → read_all d off lens ≡ take (sum lens) (drop off d.buffer)
unfolding read_all
read_all-take d [] off h p = refl
read_all-take d (len ∷ lens) off h p = elim (Bool-cases (ltb off buf_len)) [
  | inl inside ↦ rw (read_ok d len off (ltb→lt off buf_len inside)) (
      ap (◌++◌ (take (min len (buf_len - off)) (drop off d.buffer)))
        (read_all-take d lens (off + min len (buf_len - off)) h (omega arith))
      ∙ two_pieces len off (sum lens) d.buffer h)
  | inr past ↦ rw (read_past d len off true (ground arith)) (
      read_all-take d lens off h p
      ∙ take_past (sum lens) (len + sum lens) off d.buffer (ground arith))
]
