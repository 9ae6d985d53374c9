-- ===== src/MemMonitor.antt =====
-- Lab1/MemMonitor.cpp: the list of the processes that use much memory. The entries of /proc and what
-- their status files hold are arguments; a file may have changed between its two readings.
mod Status
mod Names
mod Table
mod Report
mod Order
mod Examples
use unx511_unix_systems_prog.Prelude.{
  ℕ, ◌-◌, ◌^◌, Bool, true, false, ◌&&◌, Option, none, some, List, [], ◌∷◌, ltb, ◌==◌, if◌then◌else◌,
}
use unx511_unix_systems_prog.Prelude.Int.{ℤ, pos, negsuc}
use unx511_unix_systems_prog.Prelude.Input.{clamp}
use unx511_unix_systems_prog.Prelude.Bytes.{
  codes, is_digit, is_space, drop_spaces, scan_int, has_prefix,
}

pub record ProcessInfo : Type 0 where
  pub pid : List ℕ
  pub name : List ℕ
  pub memory_kb : ℤ

-- The empty name passes, too.
unfoldable pub is_pid : List ℕ → Bool
is_pid [] = true
is_pid (c ∷ s) = is_digit c && is_pid s

-- getline until it fails: a last line without a newline counts, an empty one does not.
abbrev pub push_char : ℕ → List (List ℕ) → List (List ℕ)
push_char c [] = (c ∷ []) ∷ []
push_char c (l ∷ ls) = (c ∷ l) ∷ ls

unfoldable pub lines : List ℕ → List (List ℕ)
lines [] = []
lines (c ∷ s) = let rest = lines s in if c == 10 then [] ∷ rest else push_char c rest

-- `iss >> label` and what it leaves.
unfoldable pub take_word : List ℕ → List ℕ
take_word [] = []
take_word (c ∷ s) = if is_space c then [] else c ∷ take_word s

unfoldable pub drop_word : List ℕ → List ℕ
drop_word [] = []
drop_word (c ∷ s) = if is_space c then c ∷ s else drop_word s

-- `iss >> value` into a variable that holds `junk`: at the end of the line it stays as it is, before
-- something else than a number it becomes 0.
unfoldable pub extract_int : ℤ → List ℕ → ℤ
extract_int junk [] = junk
extract_int junk (c ∷ s) = elim (scan_int (c ∷ s)) [ none ↦ pos 0 | some z ↦ clamp z ]

unfoldable pub read_value : ℤ → List ℕ → ℤ
read_value junk line = extract_int junk (drop_spaces (drop_word (drop_spaces line)))

unfoldable pub memory_in : ℤ → List (List ℕ) → ℤ
memory_in junk [] = pos 0
memory_in junk (line ∷ ls) =
    if has_prefix (codes "VmRSS:") line then read_value junk line else memory_in junk ls

-- `none` is a file that cannot be opened.
unfoldable pub get_memory_kb : ℤ → Option (List ℕ) → ℤ
get_memory_kb junk none = pos 0
get_memory_kb junk (some file) = memory_in junk (lines file)

unfoldable pub name_in : List (List ℕ) → List ℕ
name_in [] = codes "unknown"
name_in (line ∷ ls) =
    if has_prefix (codes "Name:") line
    then take_word (drop_spaces (drop_word (drop_spaces line)))
    else name_in ls

unfoldable pub get_process_name : Option (List ℕ) → List ℕ
get_process_name none = codes "unknown"
get_process_name (some file) = name_in (lines file)

-- `a < b`.
abbrev pub int_ltb : ℤ → ℤ → Bool
int_ltb (pos m) (pos n) = ltb m n
int_ltb (pos m) (negsuc n) = false
int_ltb (negsuc m) (pos n) = true
int_ltb (negsuc m) (negsuc n) = ltb n m

unfoldable pub compare_by_memory : ProcessInfo → ProcessInfo → Bool
compare_by_memory a b = int_ltb b.memory_kb a.memory_kb

-- An entry of /proc: its name, its status file as get_memory_kb and then as get_process_name finds
-- it, and what `value` holds before it is read.
pub record Entry : Type 0 where
  d_name : List ℕ
  memory_status : Option (List ℕ)
  name_status : Option (List ℕ)
  junk : ℤ

abbrev pub is_listed : Entry → Bool
is_listed e = is_pid e.d_name && int_ltb (pos 10000) (get_memory_kb e.junk e.memory_status)

unfoldable pub info : Entry → ProcessInfo
info e = record {
  pid = e.d_name;
  name = get_process_name e.name_status;
  memory_kb = get_memory_kb e.junk e.memory_status;
}

-- main's loop over the directory.
unfoldable pub collect : List Entry → List ProcessInfo
collect [] = []
collect (e ∷ es) = let rest = collect es in if is_listed e then info e ∷ rest else rest

-- sort leaves open how equal elements are ordered; here the one that came first stays first.
unfoldable pub insert : ProcessInfo → List ProcessInfo → List ProcessInfo
insert p [] = p ∷ []
insert p (q ∷ qs) = if compare_by_memory q p then q ∷ insert p qs else p ∷ q ∷ qs

unfoldable pub sort : List ProcessInfo → List ProcessInfo
sort [] = []
sort (p ∷ ps) = insert p (sort ps)

-- What main displays.
unfoldable pub report : List Entry → List ProcessInfo
report es = sort (collect es)
