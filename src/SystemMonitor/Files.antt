-- ===== src/SystemMonitor/Files.antt =====
-- Lab5b/intfMonitor.cpp: what is read from /sys, and the texts in their arrays of 128 bytes.
use unx511_unix_systems_prog.Prelude.{
  ℕ, ◌^◌, ◌≤◌, ◌<◌, min, Option, none, some, List, [], ◌∷◌, ◌++◌, ltb, length, ◌≡◌, refl, ap, ◌∙◌,
  arith, length-append, Bool-cases, inl, inr,
}
use unx511_unix_systems_prog.Prelude.Int.{pos, IsInt}
use unx511_unix_systems_prog.Prelude.Bytes.{
  codes, show_nat, show_int, length-show_int, scan_int-show_nat_rest,
}
use unx511_unix_systems_prog.Prelude.Input.{clamp, input, read_int-scan_int, read_int-IsInt}
use unx511_unix_systems_prog.SystemMonitor.{max_buf, Files, stat_path, read_open, gather, data_line}

-- A counter as the kernel prints it.
abbrev pub counter : ℕ → Option (List ℕ)
counter n = some (show_nat n ++ (10 ∷ []))

-- The largest int.
abbrev pub top : ℕ
top = 2147483647

clamp-min : (n : ℕ) → clamp (pos n) ≡ pos (min n top)
unfolding clamp
clamp-min n = elim (Bool-cases (ltb n (2 ^ 31))) [
  | inl small ↦ rw small (ap pos (ground (arith, small)))
  | inr large ↦ rw large (ap pos (ground (arith, large)))
]

read_open-counter : (n : ℕ) → read_open (counter n) ≡ pos (min n top)
unfolding read_open
read_open-counter n =
    read_int-scan_int (pos 0) (pos n) (show_nat n ++ (10 ∷ []))
      (scan_int-show_nat_rest n (10 ∷ []) (omega arith))
    ∙ clamp-min n

-- Counters above the largest int are read as the largest int, smaller ones as they are.
pub gather_saturates :
    (files : Files) (interface : List ℕ) (tb rb tp rp : ℕ)
    → files (stat_path interface (codes "tx_bytes")) ≡ counter tb
    → files (stat_path interface (codes "rx_bytes")) ≡ counter rb
    → files (stat_path interface (codes "tx_packets")) ≡ counter tp
    → files (stat_path interface (codes "rx_packets")) ≡ counter rp
    → gather files interface ≡ record {
      tx_bytes = pos (min tb top);
      rx_bytes = pos (min rb top);
      tx_packets = pos (min tp top);
      rx_packets = pos (min rp top);
    }
unfolding gather
gather_saturates files interface tb rb tp rp h1 h2 h3 h4 =
    rw
      (
        h1,
        h2,
        h3,
        h4,
        read_open-counter tb,
        read_open-counter rb,
        read_open-counter tp,
        read_open-counter rp,
      )
      refl

read_open-IsInt : (o : Option (List ℕ)) → IsInt (read_open o)
unfolding read_open
read_open-IsInt none = omega arith
read_open-IsInt (some s) = read_int-IsInt (pos 0) (input s) (omega arith)

-- The texts fit into their arrays, with their final zeros, whatever the files hold, for an interface
-- whose name has at most 36 characters and a statistic whose name has at most 10.
pub texts_fit :
    (files : Files) (interface stat : List ℕ)
    → length interface ≤ 36
    → length stat ≤ 10
    → (length (data_line interface (gather files interface)) < max_buf)
      × (length (stat_path interface stat) < max_buf)
unfolding data_line gather stat_path
texts_fit files interface stat h h' =
    let s = gather files interface in
    (
      omega (
        arith,
        length-append {0} interface _,
        length-append {0} (show_int s.tx_bytes) _,
        length-append {0} (show_int s.rx_bytes) _,
        length-append {0} (show_int s.tx_packets) _,
        length-append {0} (show_int s.rx_packets) (10 ∷ []),
        length-show_int s.tx_bytes (read_open-IsInt _),
        length-show_int s.rx_bytes (read_open-IsInt _),
        length-show_int s.tx_packets (read_open-IsInt _),
        length-show_int s.rx_packets (read_open-IsInt _),
      ),
      omega (arith, length-append {0} interface (codes "/statistics/" ++ stat)),
    )
