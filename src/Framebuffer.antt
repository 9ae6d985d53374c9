-- ===== src/Framebuffer.antt =====
-- Lab4/Lab4.cpp: a menu that shows what two ioctl calls say of the framebuffer. The answers of open and
-- ioctl are arguments, those of ioctl for each round; standard input is what the user types. Texts go
-- to standard output or to standard error, which is Screen.log once that file has been opened.
mod Menu
mod Examples
use unx511_unix_systems_prog.Prelude.{
  ℕ, zero, suc, ◌+◌, ◌/◌, ◌%◌, Bool, true, false, Option, none, some, List, [], ◌∷◌, ◌++◌, ltb,
  ◌==◌, if◌then◌else◌,
}
use unx511_unix_systems_prog.Prelude.Int.{ℤ, pos, negsuc}
use unx511_unix_systems_prog.Prelude.Bytes.{codes, show_nat}
use unx511_unix_systems_prog.Prelude.Input.{Cin, read_int}

-- fb_fix_screeninfo.
pub record FixInfo : Type 0 where
  pub id : List ℕ
  pub smem_start : ℕ
  pub smem_len : ℕ
  pub type : ℕ
  pub visual : ℕ
  pub accel : ℕ
  pub capabilities : ℕ

-- fb_var_screeninfo.
pub record VarInfo : Type 0 where
  pub xres : ℕ
  pub yres : ℕ
  pub xres_virtual : ℕ
  pub yres_virtual : ℕ
  pub bits_per_pixel : ℕ

-- An answer of the system: a result, or the error's text.
pub data Answer {ℓ} (A : Type ℓ) : Type ℓ where
  gives : A → Answer A
  refused : List ℕ → Answer A

-- The two requests' answers in one round.
pub record Device : Type 0 where
  pub fix : Answer FixInfo
  pub var : Answer VarInfo

-- Where a text goes: standard output, standard error before and after the redirection.
pub data Effect : Type 0 where
  out err logged : List ℕ → Effect
  closed : Effect

-- The hexadecimal digits of `n` before `acc`; `n + 1` rounds are enough.
hex_onto : ℕ → ℕ → List ℕ → List ℕ
hex_onto zero n acc = acc
hex_onto (suc f) n acc =
    let digit = if ltb (n % 16) 10 then 48 + n % 16 else 87 + n % 16 in
    let more = hex_onto f (n / 16) (digit ∷ acc) in if n / 16 == 0 then digit ∷ acc else more

-- `cout << hex << n`.
show_hex : ℕ → List ℕ
show_hex n = hex_onto (suc n) n []

-- One line of a report.
row : List ℕ → List ℕ → List ℕ → List ℕ
row label value unit = label ++ (value ++ (unit ++ (10 ∷ [])))

fix_report : FixInfo → List ℕ
fix_report i =
    (10 ∷ row (codes "--- Fixed Screen Info ---") [] [])
    ++ (row (codes "Framebuffer ID: ") i.id []
        ++ (row (codes "Memory Start: 0x") (show_hex i.smem_start) []
            ++ (row (codes "Memory Length: ") (show_nat i.smem_len) (codes " bytes")
                ++ (row (codes "Type: ") (show_nat i.type) []
                    ++ (row (codes "Visual: ") (show_nat i.visual) (codes " (FB_VISUAL_*)")
                        ++ (row (codes "Acceleration: ") (show_nat i.accel) (codes " (FB_ACCEL_*)")
                            ++ row (codes "Capabilities: ") (show_nat i.capabilities)
                                (codes " (FB_CAP_*)")))))))

size_text : ℕ → ℕ → List ℕ
size_text x y = show_nat x ++ (120 ∷ show_nat y)

var_report : VarInfo → List ℕ
var_report i =
    (10 ∷ row (codes "--- Variable Screen Info ---") [] [])
    ++ (row (codes "Screen Resolution: ") (size_text i.xres i.yres) []
        ++ (row (codes "Virtual Resolution: ") (size_text i.xres_virtual i.yres_virtual) []
            ++ row (codes "Bits Per Pixel: ") (show_nat i.bits_per_pixel) []))

abbrev pub menu_text : List ℕ
menu_text =
    (10 ∷ codes "====== Framebuffer Info Menu ======")
    ++ (10 ∷ codes "1. Fixed Screen Info"
        ++ (10 ∷ codes "2. Variable Screen Info"
            ++ (10 ∷ codes "0. Exit" ++ (10 ∷ codes "Enter choice: "))))

fixed_info : Answer FixInfo → Effect
fixed_info (refused e) = logged (row (codes "FBIOGET_FSCREENINFO failed: ") e [])
fixed_info (gives i) = out (fix_report i)

variable_info : Answer VarInfo → Effect
variable_info (refused e) = logged (row (codes "FBIOGET_VSCREENINFO failed: ") e [])
variable_info (gives i) = out (var_report i)

abbrev pub exit_text : Effect
exit_text = out (codes "Exiting program." ++ (10 ∷ []))

abbrev pub invalid_input : Effect
invalid_input = logged (codes "Invalid input. Exiting." ++ (10 ∷ []))

choice_of : Device → ℕ → Effect
choice_of d n =
    if n == 1
    then fixed_info d.fix
    else (if n == 2
        then variable_info d.var
        else (if n == 0
            then exit_text
            else out (codes "Invalid choice. Please try again." ++ (10 ∷ []))))

-- What a choice does.
choose : Device → ℤ → Effect
choose d (pos n) = choice_of d n
choose d (negsuc n) = out (codes "Invalid choice. Please try again." ++ (10 ∷ []))

is_exit : ℤ → Bool
is_exit (pos n) = n == 0
is_exit (negsuc n) = false

-- The do-while loop from round k on, with what `choice` holds; `none` means that the fuel ran out.
pub menu : ℕ → ℕ → (ℕ → Device) → ℤ → Cin → Option (List Effect)
menu zero k device old c = none
menu (suc f) k device old c =
    let (choice, c') = read_int old c in
    let again = menu f (suc k) device choice c' in
    if c'.failed
    then some (out menu_text ∷ invalid_input ∷ [])
    else (if is_exit choice
        then some (out menu_text ∷ choose (device k) choice ∷ [])
        else elim again [
          | none ↦ none
          | some es ↦ some (out menu_text ∷ choose (device k) choice ∷ es)
        ])

finish : Option (List Effect) → Option (ℕ × List Effect)
finish none = none
finish (some es) = some (0, es ++ (closed ∷ []))

-- What follows the redirection: /dev/fb0 is opened (`some`: the error's text), then the menu runs.
after_log : Option (List ℕ) → Option (List Effect) → Option (ℕ × List Effect)
after_log none run = finish run
after_log (some e) run = some (1, logged (row (codes "Error opening /dev/fb0: ") e []) ∷ [])

-- main: its status and what it did. The first two arguments are the errors of the two opens, if any.
pub main : Option (List ℕ) → Option (List ℕ) → ℕ → (ℕ → Device) → ℤ → Cin → Option (ℕ × List Effect)
main (some e) fb f device junk c =
    some (1, err (row (codes "Error opening Screen.log: ") e []) ∷ [])
main none fb f device junk c = after_log fb (menu f 0 device junk c)
