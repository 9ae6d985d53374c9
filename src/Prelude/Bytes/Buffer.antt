-- ===== src/Prelude/Bytes/Buffer.antt =====
-- C strings in fixed buffers: what a read leaves behind, and where the string in it ends.
use Prim.Native.Char.{code}
use Prim.Native.Nat.{ℕ, zero, suc, ◌<◌, ◌≤◌}
use Prim.Native.String.{String}
use mathlib.Core.Path.{◌≡◌, refl, ap}
use mathlib.Core.Logic.{◌≢◌, ◌↔◌}
use mathlib.Core.Bool.{Bool, true, false, ◌&&◌}
use mathlib.Core.Option.{Option, none, some}
use mathlib.Core.List.{List, [], ◌∷◌, ◌++◌}
use native.Mathlib.Omega.{arith}
use unx511_unix_systems_prog.Prelude.Tests.{◌==◌, if◌then◌else◌}
use unx511_unix_systems_prog.Prelude.Lists.{All, length, drop, get_elem?}
use unx511_unix_systems_prog.Prelude.Bytes.Decimal.{drop_spaces}

-- The codes of a literal; `String` has its own `[]` and `∷`.
abbrev pub codes : String → List ℕ
codes String.[] = []
codes (String.◌∷◌ c s) = code c ∷ codes s

-- The C string at the front of a buffer: what stands before the first zero.
abbrev pub c_string : List ℕ → List ℕ
c_string [] = []
c_string (c ∷ s) = if c == 0 then [] else c ∷ c_string s

-- A buffer after `read` or `recvfrom` has put these bytes at its front.
abbrev pub overwrite : List ℕ → List ℕ → List ℕ
overwrite [] buf = buf
overwrite (x ∷ xs) [] = []
overwrite (x ∷ xs) (b ∷ buf) = x ∷ overwrite xs buf

-- strcmp and std::string's `==`.
abbrev pub bytes_eq : List ℕ → List ℕ → Bool
bytes_eq [] [] = true
bytes_eq [] (y ∷ ys) = false
bytes_eq (x ∷ xs) [] = false
bytes_eq (x ∷ xs) (y ∷ ys) = (x == y) && bytes_eq xs ys

-- strncmp(s, p, strlen(p)) == 0.
abbrev pub has_prefix : List ℕ → List ℕ → Bool
has_prefix [] s = true
has_prefix (x ∷ p) [] = false
has_prefix (x ∷ p) (c ∷ s) = (x == c) && has_prefix p s

-- scanf's literal text: a blank in it takes any blanks, also none; another character itself.
abbrev pub scan_literal : List ℕ → List ℕ → Option (List ℕ)
scan_literal [] s = some s
scan_literal (x ∷ p) [] = if x == 32 then scan_literal p [] else none
scan_literal (x ∷ p) (c ∷ s) =
    let blank = scan_literal p (drop_spaces (c ∷ s)) in
    let same = scan_literal p s in if x == 32 then blank else (if x == c then same else none)

abbrev pub IsText : List ℕ → Type 0
IsText = All (λ c. c ≢ 0)

pub c_string-append_zero : (s rest : List ℕ) → IsText s → c_string (s ++ (0 ∷ rest)) ≡ s
c_string-append_zero [] rest h = refl
c_string-append_zero (c ∷ s) rest h = ground (arith, c_string-append_zero s rest h.1)

pub c_string-IsText : (s : List ℕ) → IsText (c_string s)
c_string-IsText [] = tt
c_string-IsText (c ∷ s) = ground (arith, c_string-IsText s)

pub c_string_self : (s : List ℕ) → IsText s → c_string s ≡ s
c_string_self [] h = refl
c_string_self (c ∷ s) h = ground (arith, c_string_self s h.1)

pub bytes_eq_iff : (s t : List ℕ) → (bytes_eq s t ≡ true) ↔ (s ≡ t)
bytes_eq_iff [] [] = (λ _. refl, λ _. refl)
bytes_eq_iff [] (y ∷ t) = (λ h. cc, λ h. cc)
bytes_eq_iff (x ∷ s) [] = (λ h. cc, λ h. cc)
bytes_eq_iff (x ∷ s) (y ∷ t) =
    let ih = bytes_eq_iff s t in (λ h. ground (arith, ih), λ h. ground (arith, ih))

-- A read into a longer buffer leaves the rest of the buffer.
pub overwrite-drop :
    (s buf : List ℕ) → length s ≤ length buf → overwrite s buf ≡ s ++ drop (length s) buf
overwrite-drop [] buf h = refl
overwrite-drop (x ∷ s) [] h = absurd (omega arith)
overwrite-drop (x ∷ s) (b ∷ buf) h = ap (◌∷◌ x) (overwrite-drop s buf (omega arith))

-- A text that is read into a longer buffer is found there as a C string exactly if the buffer held a
-- zero just behind it: read writes none.
pub overwrite_ends :
    (s buf : List ℕ)
    → IsText s
    → length s < length buf
    → (bytes_eq (c_string (overwrite s buf)) s ≡ true) ↔ (get_elem? buf (length s) ≡ some 0)
overwrite_ends [] [] h l = absurd (omega arith)
overwrite_ends [] (b ∷ buf) h l = ground arith
overwrite_ends (x ∷ s) [] h l = absurd (omega arith)
overwrite_ends (x ∷ s) (b ∷ buf) h l =
    let ih = overwrite_ends s buf h.1 (omega arith) in ground (arith, ih)

pub length-overwrite : (s buf : List ℕ) → length (overwrite s buf) ≡ length buf
length-overwrite [] buf = refl
length-overwrite (x ∷ s) [] = refl
length-overwrite (x ∷ s) (b ∷ buf) = ap suc (length-overwrite s buf)

-- What stands behind the bytes read is still there.
pub overwrite_behind :
    (s buf : List ℕ) (k : ℕ) → length s ≤ k → get_elem? (overwrite s buf) k ≡ get_elem? buf k
overwrite_behind [] buf k h = refl
overwrite_behind (x ∷ s) [] k h = refl
overwrite_behind (x ∷ s) (b ∷ buf) zero h = absurd (omega arith)
overwrite_behind (x ∷ s) (b ∷ buf) (suc k) h = overwrite_behind s buf k (omega arith)
