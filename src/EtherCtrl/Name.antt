-- ===== src/EtherCtrl/Name.antt =====
-- Lab3/etherCtrl.cpp: the interface's name in its two arrays.
use unx511_unix_systems_prog.Prelude.{
  ℕ, suc, ◌≤◌, ◌<◌, none, some, List, [], ◌∷◌, ◌++◌, length, ltb, ◌≡◌, ◌↔◌, inl, inr, ap, sym,
  subst, ◌∙◌, arith, Bool-cases, length-append,
}
use unx511_unix_systems_prog.Prelude.Bytes.{c_string, IsText, c_string-append_zero}
use unx511_unix_systems_prog.EtherCtrl.{name_size, written, copy_name}

-- A name is refused exactly if reading it has written past the end of `if_name`. A name that is
-- accepted is a string that ends inside ifr_name.
pub copy_name_bounds :
    (name : List ℕ)
    → IsText name
    → ((copy_name name ≡ none) ↔ (name_size < written name))
      × ((ifr : List ℕ)
          → copy_name name ≡ some ifr
          → (length ifr ≤ name_size) × (c_string ifr ≡ name))
unfolding copy_name written
copy_name_bounds name t = elim (Bool-cases (ltb (length name) name_size)) [
  | inl short ↦
      let copied : copy_name name ≡ some (name ++ (0 ∷ [])) = rw short in
      let fits : length name < name_size = ground (arith, short) in
      (
        (λ e. cc, λ l. absurd (omega arith)),
        λ ifr e.
            (let same : name ++ (0 ∷ []) ≡ ifr = cc in
              let room : length (name ++ (0 ∷ [])) ≤ name_size =
                omega (arith, length-append name (0 ∷ [])) in
              (
                subst (λ x. length x ≤ name_size) same room,
                ap c_string (sym same) ∙ c_string-append_zero name [] t,
              )),
      )
  | inr long ↦
      let refused : copy_name name ≡ none = rw long in
      let over : name_size < suc (length name) = ground (arith, long) in
      ((λ e. over, λ l. refused), λ ifr e. absurd cc)
]
