-- ===== src/MemMonitor/Status.antt =====
-- Lab1/MemMonitor.cpp: what is read of a process's status file, as the kernel writes it.
use unx511_unix_systems_prog.Prelude.{
  ℕ, zero, suc, ◌^◌, ◌<◌, Bool, true, false, not, ◌&&◌, some, List, [], ◌∷◌, ◌++◌, ◌≡◌, ◌≢◌, refl,
  arith, Bool-cases, inl, inr, ap, ◌∙◌, sym, replicate, All, All-append, ◌==◌,
}
use unx511_unix_systems_prog.Prelude.Int.{ℤ, pos}
use unx511_unix_systems_prog.Prelude.Bytes.{
  codes, show_nat, has_prefix, IsDigit, show_nat-IsDigit, show_nat_starts, scan_int,
  scan_int-show_nat_rest, drop_spaces-show_nat,
}
use unx511_unix_systems_prog.Prelude.Input.{clamp}
use unx511_unix_systems_prog.MemMonitor.{
  lines, drop_word, extract_int, read_value, memory_in, get_memory_kb,
}

abbrev pub IsLine : List ℕ → Type 0
IsLine = All (λ c. c ≢ 10)

-- A file of these lines.
abbrev pub file_of : List (List ℕ) → List ℕ
file_of [] = []
file_of (l ∷ ls) = l ++ (10 ∷ file_of ls)

abbrev pub is_line : List ℕ → Bool
is_line [] = true
is_line (c ∷ s) = not (c == 10) && is_line s

pub is_line-IsLine : (s : List ℕ) → is_line s ≡ true → IsLine s
is_line-IsLine [] h = tt
is_line-IsLine (c ∷ s) h = elim (Bool-cases (c == 10)) [
  | inl newline ↦ absurd (ground arith)
  | inr other ↦ ((λ e. ground arith), is_line-IsLine s (ground arith))
]

lines_line : (l s : List ℕ) → IsLine l → lines (l ++ (10 ∷ s)) ≡ l ∷ lines s
unfolding lines
lines_line [] s h = refl
lines_line (c ∷ l) s h = ground (arith, lines_line l s h.1)

pub lines-file_of : (ls : List (List ℕ)) → All IsLine ls → lines (file_of ls) ≡ ls
unfolding lines
lines-file_of [] h = refl
lines-file_of (l ∷ ls) h = lines_line l (file_of ls) h.0 ∙ ap (◌∷◌ l) (lines-file_of ls h.1)

-- "VmRSS:", a tab, the number to the right in its field, " kB".
abbrev pub rss_line : ℕ → ℕ → List ℕ
rss_line k n = codes "VmRSS:" ++ (9 ∷ (replicate k 32 ++ (show_nat n ++ codes " kB")))

extract_number :
    (junk : ℤ) (n : ℕ) → n < 2 ^ 31 → extract_int junk (show_nat n ++ codes " kB") ≡ pos n
unfolding extract_int clamp
extract_number junk n h =
    let (c, r, e, d) = show_nat_starts n in
    let value : scan_int (c ∷ (r ++ codes " kB")) ≡ some (pos n) =
      ap (λ s. scan_int (s ++ codes " kB")) (sym e)
      ∙ scan_int-show_nat_rest n (codes " kB") (omega arith) in
    ap (λ s. extract_int junk (s ++ codes " kB")) e ∙ ground arith

read_value-rss_line : (junk : ℤ) (k n : ℕ) → n < 2 ^ 31 → read_value junk (rss_line k n) ≡ pos n
unfolding read_value drop_word
read_value-rss_line junk k n h =
    ap (extract_int junk) (drop_spaces-show_nat k n (codes " kB")) ∙ extract_number junk n h

-- A line that does not tell the memory.
abbrev pub IsOther : List ℕ → Type 0
IsOther l = IsLine l × (has_prefix (codes "VmRSS:") l ≡ false)

memory_in-found :
    (junk : ℤ) (pre post : List (List ℕ)) (k n : ℕ)
    → All IsOther pre
    → n < 2 ^ 31
    → memory_in junk (pre ++ (rss_line k n ∷ post)) ≡ pos n
unfolding memory_in
memory_in-found junk [] post k n h small = read_value-rss_line junk k n small
memory_in-found junk (l ∷ pre) post k n h small =
    rw h.0.1 (memory_in-found junk pre post k n h.1 small)

memory_in-absent : (junk : ℤ) (ls : List (List ℕ)) → All IsOther ls → memory_in junk ls ≡ pos 0
unfolding memory_in
memory_in-absent junk [] h = refl
memory_in-absent junk (l ∷ ls) h = rw h.0.1 (memory_in-absent junk ls h.1)

digits-IsLine : (s : List ℕ) → All IsDigit s → IsLine s
digits-IsLine [] h = tt
digits-IsLine (c ∷ s) h = ((λ e. omega arith), digits-IsLine s h.1)

blanks-IsLine : (k : ℕ) → IsLine (replicate k 32)
blanks-IsLine zero = tt
blanks-IsLine (suc k) = ((λ e. omega arith), blanks-IsLine k)

number-IsLine : (k n : ℕ) → IsLine (replicate k 32 ++ (show_nat n ++ codes " kB"))
number-IsLine k n =
    All-append (λ c. c ≢ 10) (replicate k 32) _ (blanks-IsLine k)
      (All-append (λ c. c ≢ 10) (show_nat n) (codes " kB")
        (digits-IsLine (show_nat n) (show_nat-IsDigit n)) (is_line-IsLine (codes " kB") refl))

rss_line-IsLine : (k n : ℕ) → IsLine (rss_line k n)
rss_line-IsLine k n =
    All-append (λ c. c ≢ 10) (codes "VmRSS:") (9 ∷ (replicate k 32 ++ (show_nat n ++ codes " kB")))
      (is_line-IsLine (codes "VmRSS:") refl) ((λ e. omega arith), number-IsLine k n)

others-IsLine : (ls : List (List ℕ)) → All IsOther ls → All IsLine ls
others-IsLine [] h = tt
others-IsLine (l ∷ ls) h = (h.0.0, others-IsLine ls h.1)

-- A status file of lines, among them one with the process's memory below 2 ^ 31 kB and none before it
-- that tells the memory, gives just that number. A file without such a line, as a kernel thread has
-- it, gives 0. What the variable held before does not matter.
pub get_memory_kb_outcome :
    (junk : ℤ) (pre post : List (List ℕ)) (k n : ℕ)
    → All IsOther pre
    → All IsLine post
    → n < 2 ^ 31
    → (get_memory_kb junk (some (file_of (pre ++ (rss_line k n ∷ post)))) ≡ pos n)
      × (get_memory_kb junk (some (file_of pre)) ≡ pos 0)
unfolding get_memory_kb
get_memory_kb_outcome junk pre post k n h h' small =
    let first = others-IsLine pre h in
    let all = All-append IsLine pre (rss_line k n ∷ post) first (rss_line-IsLine k n, h') in
    (
      ap (memory_in junk) (lines-file_of _ all) ∙ memory_in-found junk pre post k n h small,
      ap (memory_in junk) (lines-file_of pre first) ∙ memory_in-absent junk pre h,
    )
