-- ===== src/PidUtil/Listing.antt =====
-- Lab2/Lab2-ChetanArora.cpp: what is printed, for a library that keeps its laws.
use unx511_unix_systems_prog.Prelude.{
  ℕ, List, [], ◌∷◌, ◌++◌, map, Memᴰ, mem-append_left, mem-append_right, ◌≡◌, refl, ap, subst,
}
use unx511_unix_systems_prog.Prelude.Int.{ℤ}
use unx511_unix_systems_prog.Prelude.Bytes.{codes, show_int}
use unx511_unix_systems_prog.PidUtil.{
  err_ok, Library, name_result, pid_line, listing, lab2_line, main,
}

-- The header's words: a pid for a name is one of the listed processes, and has that name.
pub record IsLawful (lib : Library) : Type 0 where
  pub found_is_listed :
      (name : List ℕ) (pid : ℤ) (pids : List ℤ)
      → lib.get_pid_by_name name ≡ (err_ok, pid)
      → lib.get_all_pids ≡ (err_ok, pids)
      → Memᴰ pid pids
  pub found_has_name :
      (name : List ℕ) (pid : ℤ)
      → lib.get_pid_by_name name ≡ (err_ok, pid)
      → lib.get_name_by_pid pid ≡ (err_ok, name)

mem-map : (f : ℤ → List ℕ) (x : ℤ) (xs : List ℤ) → Memᴰ x xs → Memᴰ (f x) (map f xs)
mem-map f x [] m = elim m [ ]
mem-map f x (y ∷ xs) (Memᴰ.head e) = Memᴰ.head (ap f e)
mem-map f x (y ∷ xs) (Memᴰ.tail m) = Memᴰ.tail (mem-map f x xs m)

-- With a lawful library that lists the processes and finds "Lab2": the program prints its pid, and
-- among the lines of the list is that pid's line with the name "Lab2".
pub lab2_is_listed :
    (lib : Library) (pid : ℤ) (pids : List ℤ)
    → IsLawful lib
    → lib.get_all_pids ≡ (err_ok, pids)
    → lib.get_pid_by_name (codes "Lab2") ≡ (err_ok, pid)
    → Memᴰ (codes "Process 'Lab2' has PID: " ++ show_int pid) (main lib)
      × Memᴰ (codes "PID: " ++ (show_int pid ++ (codes ", Name: " ++ codes "Lab2"))) (main lib)
unfolding main listing pid_line name_result lab2_line
lab2_is_listed lib pid pids lawful all found =
    let listed = lawful.found_is_listed (codes "Lab2") pid pids found all in
    let named = lawful.found_has_name (codes "Lab2") pid found in
    let line : pid_line lib pid
        ≡ codes "PID: " ++ (show_int pid ++ (codes ", Name: " ++ codes "Lab2")) =
      ap (name_result lib pid) named in
    (
      rw found (mem-append_right (listing lib lib.get_all_pids) (Memᴰ.tail (Memᴰ.head refl))),
      mem-append_left {xs = listing lib lib.get_all_pids} _ (
          rw all (
            subst (λ l. Memᴰ l (map (pid_line lib) pids)) line
              (mem-map (pid_line lib) pid pids listed))),
    )
