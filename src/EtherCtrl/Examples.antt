-- ===== src/EtherCtrl/Examples.antt =====
-- Lab3/etherCtrl.cpp: a session, and the theorems at it.
use unx511_unix_systems_prog.Prelude.{
  ℕ, ◌<◌, none, some, List, [], ◌∷◌, ◌++◌, ◌≡◌, refl, true, false, ◌*◌, arith, ltb, if◌then◌else◌,
}
use unx511_unix_systems_prog.Prelude.Int.{pos}
use unx511_unix_systems_prog.Prelude.Bytes.{
  codes, IsText, c_string-IsText, scan_sign, scan_nat, scan_digits, show_nat,
}
use unx511_unix_systems_prog.Prelude.Input.{Cin, input, read_int, read_word, ignore_line, get_char}
use unx511_unix_systems_prog.EtherCtrl.{
  Request, hardware, address, net_mask, broadcast, Reply, refused, filled, shows_menu, clears,
  asks_key, closes, says, copy_name, menu, exited, main, wait_key, select, is_exit,
}
use unx511_unix_systems_prog.EtherCtrl.Rounds

-- The bytes 0, 17, 34, ...
abbrev bytes : ℕ → ℕ
bytes i = if ltb i 6 then i * 17 else 0

card : ℕ → Request → Reply
card k hardware = filled 1 bytes
card k address = filled 2 bytes
card k net_mask = refused (codes "Cannot assign requested address")
card k broadcast = filled 2 bytes

abbrev typed : Cin
typed = input (
    codes "eth0"
    ++ (10 ∷ codes "1"
        ++ (10 ∷ 10 ∷ codes "2" ++ (10 ∷ 10 ∷ codes "3" ++ (10 ∷ 10 ∷ codes "0" ++ (10 ∷ []))))))

abbrev line : List ℕ → List ℕ
line s = s ++ (10 ∷ [])

main_runs :
    main 20 card none (pos 7) [] typed
    ≡ some (
        exited (
          clears
          ∷ shows_menu
          ∷ says (line (codes "MAC Address: 00:11:22:33:44:55"))
          ∷ asks_key
          ∷ clears
          ∷ shows_menu
          ∷ says (line (codes "IP Address: 34.51.68.85"))
          ∷ asks_key
          ∷ clears
          ∷ shows_menu
          ∷ says (codes "Cannot assign requested address")
          ∷ asks_key
          ∷ clears
          ∷ shows_menu
          ∷ says (line (codes "Exiting program."))
          ∷ closes
          ∷ []))
unfolding main menu card read_word read_int wait_key ignore_line get_char select is_exit copy_name
    scan_sign scan_nat scan_digits show_nat
main_runs = refl

-- The hardware address, and a selection that is none.
abbrev two_rounds : List (ℕ × ℕ)
two_rounds = (1, 10) ∷ (9, 10) ∷ []

-- Selection 1, and then no more input.
abbrev ended : Cin
ended = record { rest = []; at_end = true; failed = false }

one_stays : is_exit (pos 1) ≡ false
unfolding is_exit
one_stays = refl

bytes_small : (i : ℕ) → bytes i < 256
bytes_small i = ground arith

eth0-IsText : IsText (codes "eth0")
eth0-IsText = c_string-IsText (codes "eth0")
