-- ===== src/MemMonitor/Table.antt =====
-- Lab1/MemMonitor.cpp: main with the table that it displays. `left` with setw fills a text up with
-- blanks behind it, and leaves a longer one as it is.
use unx511_unix_systems_prog.Prelude.{
  ℕ, ◌+◌, ◌-◌, ◌≤◌, Option, none, some, List, [], ◌∷◌, ◌++◌, length, take, drop, replicate, ◌≡◌,
  sym, ap, ◌∙◌, arith, length-append, length-replicate, take-append, drop-append,
}
use unx511_unix_systems_prog.Prelude.Bytes.{codes, show_int}
use unx511_unix_systems_prog.MemMonitor.{ProcessInfo, Entry, report}

unfoldable pub pad : ℕ → List ℕ → List ℕ
pad w s = s ++ replicate (w - length s) 32

unfoldable pub row : ProcessInfo → List ℕ
row p = pad 8 p.pid ++ (pad 25 p.name ++ (show_int p.memory_kb ++ (10 ∷ [])))

unfoldable pub rows : List ProcessInfo → List ℕ
rows [] = []
rows (p ∷ ps) = row p ++ rows ps

unfoldable pub heading : List ℕ
heading =
    pad 8 (codes "PID")
    ++ (pad 25 (codes "Name")
        ++ (codes "Memory (kB)"
            ++ (10 ∷ codes "---------------------------------------------------------"
                ++ (10 ∷ []))))

-- What main comes to: a complaint and 1, or a cleared screen with a text and 0.
pub data Outcome : Type 0 where
  complained displayed : List ℕ → Outcome

-- `none`: /proc cannot be opened.
unfoldable pub main : Option (List Entry) → Outcome
main none = complained (codes "Cannot open /proc")
main (some es) = displayed (heading ++ rows (report es))

length-pad : (w : ℕ) (s : List ℕ) → length s ≤ w → length (pad w s) ≡ w
unfolding pad
length-pad w s h =
    length-append {0} s (replicate (w - length s) 32)
    ∙ ap (λ n. length s + n) (length-replicate {0} (w - length s) 32)
    ∙ omega (arith, h)

front : (w : ℕ) (s t : List ℕ) → length s ≤ w → take w (pad w s ++ t) ≡ pad w s
front w s t h = ap (λ n. take n (pad w s ++ t)) (sym (length-pad w s h)) ∙ take-append (pad w s) t

behind : (w : ℕ) (s t : List ℕ) → length s ≤ w → drop w (pad w s ++ t) ≡ t
behind w s t h = ap (λ n. drop n (pad w s ++ t)) (sym (length-pad w s h)) ∙ drop-append (pad w s) t

-- In the row of a process whose id has at most 8 digits and whose name has at most 25 bytes, the id
-- stands from column 0 on, the name from column 8 on, and the memory from column 33 to the newline.
pub row_columns :
    (p : ProcessInfo)
    → length p.pid ≤ 8
    → length p.name ≤ 25
    → (take 8 (row p) ≡ pad 8 p.pid)
      × (take 25 (drop 8 (row p)) ≡ pad 25 p.name)
      × (drop 25 (drop 8 (row p)) ≡ show_int p.memory_kb ++ (10 ∷ []))
unfolding row
row_columns p hp hn =
    let memory = show_int p.memory_kb ++ (10 ∷ []) in
    let rest = behind 8 p.pid (pad 25 p.name ++ memory) hp in
    (
      front 8 p.pid (pad 25 p.name ++ memory) hp,
      ap (take 25) rest ∙ front 25 p.name memory hn,
      ap (drop 25) rest ∙ behind 25 p.name memory hn,
    )
