-- ===== src/Prelude/Update.antt =====
-- Functions on numbers, changed at one of them.
use Prim.Native.Nat.{ℕ}
use mathlib.Core.Path.{◌≡◌, refl, subst, fun_ext}
use mathlib.Core.Logic.{◌≢◌, inl, inr}
use mathlib.Core.Bool.{true, false}
use native.Mathlib.Omega.{arith}
use unx511_unix_systems_prog.Prelude.Tests.{◌==◌, if◌then◌else◌, Bool-cases, ==_iff}

abbrev pub put {ℓ} : {A : Type ℓ} → ℕ → A → (ℕ → A) → ℕ → A
put i a f k = if i == k then a else f k

pub put_intro {ℓ κ} :
    {A : Type ℓ} (P : A → Type κ) (i : ℕ) (a : A) (f : ℕ → A)
    → P a
    → ((k : ℕ) → P (f k))
    → (k : ℕ) → P (put i a f k)
put_intro P i a f h g k = elim (Bool-cases (i == k)) [
  | inl same ↦ rw same h
  | inr other ↦ rw other (g k)
]

pub put_self {ℓ} : {A : Type ℓ} (i : ℕ) (a : A) (f : ℕ → A) → put i a f i ≡ a
put_self i a f = let same : (i == i) ≡ true = ground arith in rw same refl

pub put_other {ℓ} : {A : Type ℓ} (i k : ℕ) (a : A) (f : ℕ → A) → i ≢ k → put i a f k ≡ f k
put_other i k a f h = let other : (i == k) ≡ false = ground (arith, h) in rw other refl

pub put_at {ℓ κ} :
    {A : Type ℓ} (P : ℕ → A → Type κ) (i : ℕ) (a : A) (f : ℕ → A)
    → P i a
    → ((k : ℕ) → P k (f k))
    → (k : ℕ) → P k (put i a f k)
put_at P i a f h g k = elim (Bool-cases (i == k)) [
  | inl same ↦ rw same (subst (λ j. P j a) ((==_iff i k).0 same) h)
  | inr other ↦ rw other (g k)
]

pub put_same {ℓ} : {A : Type ℓ} (i : ℕ) (f : ℕ → A) → put i (f i) f ≡ f
put_same i f = fun_ext λ k. put_at (λ j a. a ≡ f j) i (f i) f refl (λ j. refl) k
