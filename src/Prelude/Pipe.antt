-- ===== src/Prelude/Pipe.antt =====
-- First in, first out.
use mathlib.Core.Path.{◌≡◌, refl, sym, ap, ◌∙◌}
use mathlib.Core.List.{List, [], ◌∷◌, ◌++◌, append-nil, append_assoc}

-- A way with `before` on it: `ins` come in, `outs` go out, `after` are on it then.
pub record Pipe {A : Type 0} (before ins outs after : List A) : Type 0 where
  pub in_order : before ++ ins ≡ outs ++ after

pub Pipe-append :
    {A : Type 0} {x a b y a' b' z : List A}
    → Pipe x a b y
    → Pipe y a' b' z
    → Pipe x (a ++ a') (b ++ b') z
Pipe-append {x} {a} {b} {y} {a'} {b'} {z} h h' = record {
  in_order =
      sym (append_assoc x a a')
      ∙ ap (λ l. l ++ a') h.in_order
      ∙ append_assoc b y a'
      ∙ ap (◌++◌ b) h'.in_order
      ∙ sym (append_assoc b b' z);
}

pub Pipe-nil : {A : Type 0} (x : List A) → Pipe x [] [] x
Pipe-nil x = record { in_order = append-nil x }

-- What shows of a list of happenings.
abbrev pub collect : {A B : Type 0} → (A → List B) → List A → List B
collect f [] = []
collect f (x ∷ xs) = f x ++ collect f xs

pub collect-append :
    {A B : Type 0} (f : A → List B) (xs ys : List A)
    → collect f (xs ++ ys) ≡ collect f xs ++ collect f ys
collect-append f [] ys = refl
collect-append f (x ∷ xs) ys =
    ap (◌++◌ (f x)) (collect-append f xs ys)
    ∙ sym (append_assoc (f x) (collect f xs) (collect f ys))
