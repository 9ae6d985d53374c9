-- ===== src/PidUtil.antt =====
-- Lab2/Lab2-ChetanArora.cpp and pidUtil.h: a program that asks a library for processes and their names.
-- The library is there only as a header and a binary: it is a parameter, with what its header says of
-- it as laws that a theorem may ask for.
mod Listing
mod Examples
use unx511_unix_systems_prog.Prelude.{ℕ, List, [], ◌∷◌, ◌++◌, map}
use unx511_unix_systems_prog.Prelude.Int.{ℤ, pos}
use unx511_unix_systems_prog.Prelude.Bytes.{codes, show_int}

pub data ErrStatus : Type 0 where
  err_ok err_dir_open err_no_pid err_no_name : ErrStatus

-- What the functions return, with what they put into their reference arguments.
pub record Library : Type 0 where
  pub get_all_pids : ErrStatus × List ℤ
  pub get_name_by_pid : ℤ → ErrStatus × List ℕ
  pub get_pid_by_name : List ℕ → ErrStatus × ℤ
  pub get_error_msg : ErrStatus → List ℕ

error_line : Library → ErrStatus → List ℕ
error_line lib status = codes "Error: " ++ lib.get_error_msg status

name_result : Library → ℤ → ErrStatus × List ℕ → List ℕ
name_result lib pid (err_ok, name) = codes "PID: " ++ (show_int pid ++ (codes ", Name: " ++ name))
name_result lib pid (status, name) =
    codes "PID: " ++ (show_int pid ++ (codes " - Error: " ++ lib.get_error_msg status))

-- The line of one process in the list.
pub pid_line : Library → ℤ → List ℕ
pid_line lib pid = name_result lib pid (lib.get_name_by_pid pid)

listing : Library → ErrStatus × List ℤ → List (List ℕ)
listing lib (err_ok, pids) = map (pid_line lib) pids
listing lib (status, pids) = error_line lib status ∷ []

pid1_line : Library → ErrStatus × List ℕ → List ℕ
pid1_line lib (err_ok, name) = codes "PID 1 Name: " ++ name
pid1_line lib (status, name) = error_line lib status

lab2_line : Library → ErrStatus × ℤ → List ℕ
lab2_line lib (err_ok, pid) = codes "Process 'Lab2' has PID: " ++ show_int pid
lab2_line lib (status, pid) = error_line lib status

lab22_line : Library → ErrStatus × ℤ → List ℕ
lab22_line lib (err_ok, pid) = codes "Unexpected! 'Lab22' has PID: " ++ show_int pid
lab22_line lib (status, pid) = codes "Expected error (Lab22): " ++ lib.get_error_msg status

-- main: the lines that it prints.
pub main : Library → List (List ℕ)
main lib =
    listing lib lib.get_all_pids
    ++ (pid1_line lib (lib.get_name_by_pid (pos 1))
        ∷ lab2_line lib (lib.get_pid_by_name (codes "Lab2"))
        ∷ lab22_line lib (lib.get_pid_by_name (codes "Lab22"))
        ∷ [])
