-- ===== src/Prelude/Setup.antt =====
-- The start of a program: calls of the system one after the other, each with its answer as an
-- argument, with what they do outside and an exit at the first failure that the program looks at.
use Prim.Native.Nat.{ℕ, ◌-◌, ◌%◌, ◌^◌}
use mathlib.Core.Bool.{Bool, true, false}
use mathlib.Core.Option.{Option, none, some}
use mathlib.Core.List.{List, [], ◌∷◌, ◌++◌}
use unx511_unix_systems_prog.Prelude.Int.{ℤ, pos, negsuc}
use unx511_unix_systems_prog.Prelude.Tests.{ltb, if◌then◌else◌}
use unx511_unix_systems_prog.Prelude.Bytes.{scan_int}

-- A socket address: a port and an IPv4 address, or a path.
pub data Endpoint : Type 0 where
  internet : ℕ → ℕ → Endpoint
  local : List ℕ → Endpoint

-- What a call does outside; `complained` is a text about an error.
pub data Act : Type 0 where
  opened closed set_nonblocking reused_address : ℕ → Act
  bound : ℕ → Endpoint → Act
  listened : ℕ → ℕ → Act
  connected : ℕ → Endpoint → Act
  unlinked : List ℕ → Act
  started_thread slept : Act
  complained said : List ℕ → Act

-- Goes on with a value, or ends with a status.
pub data Result {ℓ} (A : Type ℓ) : Type ℓ where
  ok : A → Result A
  exits : ℤ → Result A

abbrev pub Setup {ℓ} : Type ℓ → Type ℓ
Setup A = List Act × Result A

infixl 5 ◌>>=◌ ◌>>◌
abbrev pub ◌>>=◌ {ℓ κ} : {A : Type ℓ} {B : Type κ} → Setup A → (A → Setup B) → Setup B
(es, ok a) >>= f = let (es', r) = f a in (es ++ es', r)
(es, exits z) >>= f = (es, exits z)

abbrev pub ◌>>◌ {ℓ} : {B : Type ℓ} → Setup (Unit {0}) → Setup B → Setup B
m >> k = m >>= λ _. k

abbrev pub pure {ℓ} : {A : Type ℓ} → A → Setup A
pure a = ([], ok a)

abbrev pub act : Act → Setup (Unit {0})
act e = (e ∷ [], ok tt)

-- A call that gives a value, or fails: then these things are done, and the program ends.
abbrev pub or_exit {ℓ} : {A : Type ℓ} → Option A → List Act → ℤ → Setup A
or_exit none es status = (es, exits status)
or_exit (some a) es status = ([], ok a)

abbrev pub check : Bool → List Act → ℤ → Setup (Unit {0})
check true es status = ([], ok tt)
check false es status = (es, exits status)

-- socket, which opens a descriptor.
abbrev pub open_or_exit : Option ℕ → List Act → ℤ → Setup ℕ
open_or_exit none es status = (es, exits status)
open_or_exit (some d) es status = (opened d ∷ [], ok d)

abbrev pub opens : Act → ℕ
opens (opened d) = 1
opens _ = 0

abbrev pub closes : Act → ℕ
closes (closed d) = 1
closes _ = 0

abbrev or_zero : Option ℤ → ℤ
or_zero none = pos 0
or_zero (some z) = z

-- strtol's value, a long of 64 bits: the nearest one to what is out of range.
abbrev to_long : ℤ → ℤ
to_long (pos n) = if ltb n (2 ^ 63) then pos n else pos (2 ^ 63 - 1)
to_long (negsuc n) = if ltb n (2 ^ 63) then negsuc n else negsuc (2 ^ 63 - 1)

-- The cast to an `int`: the low 32 bits, with a sign.
abbrev to_int : ℤ → ℤ
to_int (pos n) = let m = n % 2 ^ 32 in if ltb m (2 ^ 31) then pos m else negsuc (2 ^ 32 - 1 - m)
to_int (negsuc n) = let m = n % 2 ^ 32 in if ltb m (2 ^ 31) then negsuc m else pos (2 ^ 32 - 1 - m)

-- atoi, as glibc has it; a text without a number gives zero.
unfoldable pub atoi : List ℕ → ℤ
atoi s = to_int (to_long (or_zero (scan_int s)))

-- htons takes the low 16 bits.
unfoldable pub port_of : ℤ → ℕ
port_of (pos n) = n % 65536
port_of (negsuc n) = 65535 - n % 65536
