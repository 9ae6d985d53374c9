-- ===== src/PidUtil/Examples.antt =====
-- Lab2/Lab2-ChetanArora.cpp: a library, and the theorem at it.
use unx511_unix_systems_prog.Prelude.{
  ℕ, List, [], ◌∷◌, Memᴰ, ◌≡◌, refl, sym, ap, subst, if◌then◌else◌, Bool-cases, inl, inr,
}
use unx511_unix_systems_prog.Prelude.Int.{ℤ, pos, negsuc}
use unx511_unix_systems_prog.Prelude.Bytes.{codes, bytes_eq, bytes_eq_iff}
use unx511_unix_systems_prog.PidUtil.{ErrStatus, err_ok, err_no_pid, err_no_name, Library}
use unx511_unix_systems_prog.PidUtil.Listing.{IsLawful}

-- One process, 7 with the name "Lab2".
abbrev library : Library
library = record {
  get_all_pids = (err_ok, pos 7 ∷ []);
  get_name_by_pid =
      λ pid. elim pid [ pos n ↦ (err_ok, codes "Lab2") | negsuc n ↦ (err_no_pid, []) ];
  get_pid_by_name =
      λ name. if bytes_eq name (codes "Lab2") then (err_ok, pos 7) else (err_no_name, pos 0);
  get_error_msg = λ status. codes "no such name";
}

only_lab2 :
    (name : List ℕ) (pid : ℤ)
    → library.get_pid_by_name name ≡ (err_ok, pid)
    → (name ≡ codes "Lab2") × (pid ≡ pos 7)
only_lab2 name pid found = elim (Bool-cases (bytes_eq name (codes "Lab2"))) [
  | inl e ↦ (
    (bytes_eq_iff name (codes "Lab2")).0 e,
    sym (ap (λ (r : ErrStatus × ℤ). r.1) (rw e at found)),
  )
  | inr e ↦
      (let clash : err_no_name ≡ err_ok = ap (λ (r : ErrStatus × ℤ). r.0) (rw e at found) in
        absurd cc)
]

library-IsLawful : IsLawful library
library-IsLawful = record {
  found_is_listed = λ name pid pids found all.
      (let (named, same) = only_lab2 name pid found in
        subst (Memᴰ pid) (ap (λ (r : ErrStatus × List ℤ). r.1) all) (Memᴰ.head same));
  found_has_name =
      λ name pid found. (let (named, same) = only_lab2 name pid found in rw (same, named) refl);
}
