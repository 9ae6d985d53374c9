-- ===== src/EtherCtrl/Menu.antt =====
-- Lab3/etherCtrl.cpp: when the menu's loop never ends.
use unx511_unix_systems_prog.Prelude.{ℕ, zero, suc, true, false, none, ◌≡◌, refl, arith}
use unx511_unix_systems_prog.Prelude.Int.{ℤ}
use unx511_unix_systems_prog.Prelude.Input.{
  Cin, good, ignore_line, read_int-bad, ignore_line-bad, get_char-bad,
}
use unx511_unix_systems_prog.EtherCtrl.{Request, Reply, is_exit, wait_key, menu}

wait_key-bad : (c : Cin) → good c ≡ false → good (wait_key c) ≡ false
unfolding wait_key
wait_key-bad c h = get_char-bad (ignore_line c) (ignore_line-bad c h)

-- The end of the input, or a failed read, with a selection other than 0: the loop never ends.
pub menu_never_ends :
    (f k : ℕ) (ioctl : ℕ → Request → Reply) (old : ℤ) (c : Cin)
    → good c ≡ false
    → is_exit old ≡ false
    → menu f k ioctl old c ≡ none
unfolding menu
menu_never_ends zero k ioctl old c h e = refl
menu_never_ends (suc f) k ioctl old c h e =
    let c' : Cin = record c { failed = true } in
    let bad : good c' ≡ false = ground arith in
    let ih = menu_never_ends f (suc k) ioctl old (wait_key c') (wait_key-bad c' bad) e in
    rw (read_int-bad old c h, e, ih)
