-- ===== src/Framebuffer/Examples.antt =====
-- Lab4/Lab4.cpp: a session, and the theorems at it.
use unx511_unix_systems_prog.Prelude.{
  ℕ, Option, none, some, List, [], ◌∷◌, ◌++◌, ◌≡◌, ◌↔◌, ◌⊎◌, refl, arith,
}
use unx511_unix_systems_prog.Prelude.Int.{pos}
use unx511_unix_systems_prog.Prelude.Bytes.{codes, show_nat, scan_sign, scan_nat, scan_digits}
use unx511_unix_systems_prog.Prelude.Input.{Cin, input, read_int}
use unx511_unix_systems_prog.Framebuffer.{
  gives, refused, Device, Effect, out, logged, closed, menu_text, exit_text, invalid_input,
  show_hex, hex_onto, after_log, finish, choice_of, fixed_info, variable_info, row, var_report,
  size_text, menu, main, choose, is_exit,
}
use unx511_unix_systems_prog.Framebuffer.Menu.{last, menu_ends, main_total}

abbrev device : ℕ → Device
device k = record {
  fix = refused (codes "Invalid argument");
  var = gives (record {
    xres = 800;
    yres = 600;
    xres_virtual = 800;
    yres_virtual = 1200;
    bits_per_pixel = 32;
  });
}

abbrev line : List ℕ → List ℕ
line s = s ++ (10 ∷ [])

abbrev typed : Cin
typed = input (codes "1 2 0")

show_hex_runs : show_hex 4244635648 ≡ codes "fd000000"
unfolding show_hex hex_onto
show_hex_runs = refl

main_runs :
    main none none 10 device (pos 0) typed
    ≡ some (
      0,
      out menu_text
          ∷ logged (line (codes "FBIOGET_FSCREENINFO failed: Invalid argument"))
          ∷ out menu_text
          ∷ out (
              10 ∷ line (codes "--- Variable Screen Info ---")
              ++ (line (codes "Screen Resolution: 800x600")
                  ++ (line (codes "Virtual Resolution: 800x1200")
                      ++ line (codes "Bits Per Pixel: 32"))))
          ∷ out menu_text
          ∷ exit_text
          ∷ closed
          ∷ [],
    )
unfolding main menu read_int choose is_exit scan_sign scan_nat scan_digits show_nat after_log finish
    choice_of fixed_info variable_info row var_report size_text
main_runs = refl

menu_ends_example :
    (es : List Effect) × (menu 9 0 device (pos 7) (input (codes "1 2")) ≡ some es)
    × ((last es ≡ some exit_text) ⊎ (last es ≡ some invalid_input))
menu_ends_example = menu_ends 9 0 device (pos 7) (input (codes "1 2")) (omega arith)

abbrev no_error : Option (List ℕ)
no_error = none

main_total_example :
    (status : ℕ) × (es : List Effect) × (main no_error no_error 9 device (pos 7) typed
      ≡ some (status, es))
    × ((status ≡ 0) ↔ ((no_error ≡ none) × (no_error ≡ none)))
main_total_example = main_total no_error no_error 9 device (pos 7) typed (omega arith)
