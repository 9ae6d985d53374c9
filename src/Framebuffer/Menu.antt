-- ===== src/Framebuffer/Menu.antt =====
-- Lab4/Lab4.cpp: the menu ends on every input, and how.
use unx511_unix_systems_prog.Prelude.{
  ℕ, zero, suc, ◌<◌, true, Option, none, some, List, [], ◌∷◌, ◌++◌, length, ◌≡◌, ◌⊎◌, inl, inr,
  refl, ap, ◌↔◌, arith, Bool-cases,
}
use unx511_unix_systems_prog.Prelude.Int.{ℤ, pos, negsuc}
use unx511_unix_systems_prog.Prelude.Input.{Cin, read_int, read_int_takes}
use unx511_unix_systems_prog.Framebuffer.{
  Device, Effect, out, menu_text, exit_text, invalid_input, choose, choice_of, is_exit, menu,
  closed, finish, after_log, main,
}

-- The last thing done.
abbrev pub last : List Effect → Option Effect
last [] = none
last (e ∷ []) = some e
last (e ∷ e' ∷ es) = last (e' ∷ es)

last_cons : (e x : Effect) (es : List Effect) → last es ≡ some x → last (e ∷ es) ≡ some x
last_cons e x [] h = absurd cc
last_cons e x (y ∷ es) h = h

choose_exits : (d : Device) (z : ℤ) → is_exit z ≡ true → choose d z ≡ exit_text
unfolding choose is_exit choice_of
choose_exits d (pos n) h = let e : n ≡ 0 = ground (arith, h) in rw e refl
choose_exits d (negsuc n) h = absurd cc

-- With more fuel than bytes of input the menu ends, and the last thing it does is to take leave after
-- the choice 0, or to log that the input was invalid.
pub menu_ends :
    (f k : ℕ) (device : ℕ → Device) (old : ℤ) (c : Cin)
    → length c.rest < f
    → (es : List Effect) × (menu f k device old c ≡ some es)
      × ((last es ≡ some exit_text) ⊎ (last es ≡ some invalid_input))
unfolding menu
menu_ends zero k device old c l = absurd (omega arith)
menu_ends (suc f) k device old c l =
    let choice = (read_int old c).0 in
    let c' = (read_int old c).1 in
    elim (Bool-cases c'.failed) [
      | inl bad ↦ (out menu_text ∷ invalid_input ∷ [], rw bad, inr refl)
      | inr fine ↦ elim (Bool-cases (is_exit choice)) [
        | inl exits ↦ (
          out menu_text ∷ choose (device k) choice ∷ [],
          rw (fine, exits),
          inl (ap some (choose_exits (device k) choice exits)),
        )
        | inr stays ↦
            let (es, run, end) =
              menu_ends f (suc k) device choice c' (omega (arith, read_int_takes old c fine)) in
            let shown = choose (device k) choice in
            (
              out menu_text ∷ shown ∷ es,
              rw (fine, stays, run),
              elim end [
                | inl e ↦ inl (
                    last_cons (out menu_text) exit_text (shown ∷ es)
                      (last_cons shown exit_text es e))
                | inr e ↦ inr (
                    last_cons (out menu_text) invalid_input (shown ∷ es)
                      (last_cons shown invalid_input es e))
              ],
            )
      ]
    ]

-- With more fuel than bytes of input main returns, with status 0 exactly if both files were opened.
pub main_total :
    (log fb : Option (List ℕ)) (f : ℕ) (device : ℕ → Device) (junk : ℤ) (c : Cin)
    → length c.rest < f
    → (status : ℕ) × (es : List Effect) × (main log fb f device junk c ≡ some (status, es))
      × ((status ≡ 0) ↔ ((log ≡ none) × (fb ≡ none)))
unfolding main after_log finish
main_total (some e) fb f device junk c l = (1, _, refl, (λ h. absurd cc, λ h. absurd cc))
main_total none (some e) f device junk c l = (1, _, refl, (λ h. absurd cc, λ h. absurd cc))
main_total none none f device junk c l =
    let (es, run, end) = menu_ends f 0 device junk c l in
    (0, es ++ (closed ∷ []), rw run, (λ h. (refl, refl), λ h. refl))
