-- ===== src/MemMonitor/Examples.antt =====
-- Lab1/MemMonitor.cpp: a directory of three processes, and the theorems at it.
use unx511_unix_systems_prog.Prelude.{ℕ, some, List, [], ◌∷◌, ◌++◌, ◌≡◌, refl, arith, tally, length}
use unx511_unix_systems_prog.Prelude.Int.{pos, negsuc}
use Prim.Native.String.{String}
use unx511_unix_systems_prog.Prelude.Bytes.{codes, scan_int, scan_sign, scan_nat, scan_digits}
use unx511_unix_systems_prog.Prelude.Input.{clamp}
use unx511_unix_systems_prog.MemMonitor.{
  Entry, is_pid, lines, take_word, drop_word, extract_int, read_value, memory_in, get_memory_kb,
  name_in, get_process_name, compare_by_memory, info, collect, insert, sort, report,
}
use unx511_unix_systems_prog.MemMonitor.Status.{
  is_line-IsLine, file_of, rss_line, get_memory_kb_outcome,
}
use unx511_unix_systems_prog.MemMonitor.Report.{report_outcome, listed}
use unx511_unix_systems_prog.MemMonitor.Order.{report_any_order, column}
use mathlib.Core.List.{Perm}
use mathlib.Core.List.Perm

abbrev status : String → String → List ℕ
status name kb =
    codes name ++ (10 ∷ (codes "VmRSS:" ++ (9 ∷ (codes kb ++ (codes " kB" ++ (10 ∷ []))))))

abbrev entry : String → String → String → Entry
entry pid name kb = record {
  d_name = codes pid;
  memory_status = some (status name kb);
  name_status = some (status name kb);
  junk = negsuc 0;
}

abbrev directory : List Entry
directory =
    entry "1" "Name: init" "  12000"
    ∷ entry "self" "Name: monitor" "  90000"
    ∷ entry "20" "Name: tiny" "  300"
    ∷ entry "7" "Name: editor" "  50000"
    ∷ []

report_runs :
    report directory
    ≡ record { pid = codes "7"; name = codes "editor"; memory_kb = pos 50000 }
      ∷ record { pid = codes "1"; name = codes "init"; memory_kb = pos 12000 }
      ∷ []
unfolding report collect sort insert info compare_by_memory is_pid get_memory_kb get_process_name
    memory_in name_in lines read_value extract_int clamp take_word drop_word scan_int scan_sign
    scan_nat scan_digits
report_runs = refl

report_outcome_example : length (report directory) ≡ tally listed directory
report_outcome_example = (report_outcome directory).3

-- Two processes that use as much: which of them is displayed first depends on the directory.
abbrev first : Entry
first = entry "7" "Name: editor" "  50000"

abbrev second : Entry
second = entry "9" "Name: viewer" "  50000"

report_any_order_example :
    Perm (report (first ∷ second ∷ directory)) (report (second ∷ first ∷ directory))
    × (column (report (first ∷ second ∷ directory)) ≡ column (report (second ∷ first ∷ directory)))
report_any_order_example =
    report_any_order (first ∷ second ∷ directory) (second ∷ first ∷ directory)
      (Perm.swap second first directory)

get_memory_kb_outcome_example :
    get_memory_kb
      (negsuc 0)
      (some (file_of (codes "Name: a" ∷ rss_line 4 2000 ∷ codes "Threads: 1" ∷ [])))
    ≡ pos 2000
get_memory_kb_outcome_example =
    (get_memory_kb_outcome (negsuc 0) (codes "Name: a" ∷ []) (codes "Threads: 1" ∷ []) 4 2000
      ((is_line-IsLine (codes "Name: a") refl, refl), tt)
      (is_line-IsLine (codes "Threads: 1") refl, tt) (omega arith)).0
