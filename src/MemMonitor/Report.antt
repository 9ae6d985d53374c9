-- ===== src/MemMonitor/Report.antt =====
-- Lab1/MemMonitor.cpp: which processes are displayed, and in which order.
use unx511_unix_systems_prog.Prelude.{
  ℕ, ◌+◌, Bool, true, false, ◌&&◌, List, [], ◌∷◌, ◌≡◌, refl, arith, Bool-cases, inl, inr, ◌∙◌,
  length, tally, All, if◌then◌else◌,
}
use unx511_unix_systems_prog.Prelude.Int.{ℤ, pos, negsuc}
use mathlib.Core.List.{Perm}
use mathlib.Core.List.Perm
use unx511_unix_systems_prog.MemMonitor.{
  ProcessInfo, is_pid, int_ltb, compare_by_memory, Entry, is_listed, info, collect, insert, sort,
  report,
}

-- Nobody further down uses more memory.
abbrev pub IsDescending : List ProcessInfo → Type 0
IsDescending [] = Unit
IsDescending (p ∷ ps) = All (λ q. compare_by_memory q p ≡ false) ps × IsDescending ps

-- A process that belongs into the display.
abbrev pub IsShown : ProcessInfo → Type 0
IsShown p = (is_pid p.pid ≡ true) × (int_ltb (pos 10000) p.memory_kb ≡ true)

pub int_ltb-asym : (a b : ℤ) → int_ltb a b ≡ true → int_ltb b a ≡ false
int_ltb-asym (pos m) (pos n) h = ground arith
int_ltb-asym (pos m) (negsuc n) h = cc
int_ltb-asym (negsuc m) (pos n) h = refl
int_ltb-asym (negsuc m) (negsuc n) h = ground arith

pub int_ltb_trans : (a b c : ℤ) → int_ltb b a ≡ false → int_ltb c b ≡ false → int_ltb c a ≡ false
int_ltb_trans (pos l) (pos m) (pos n) h k = ground arith
int_ltb_trans (pos l) (pos m) (negsuc n) h k = cc
int_ltb_trans (pos l) (negsuc m) c h k = cc
int_ltb_trans (negsuc l) b (pos n) h k = refl
int_ltb_trans (negsuc l) (pos m) (negsuc n) h k = cc
int_ltb_trans (negsuc l) (negsuc m) (negsuc n) h k = ground arith

insert-All :
    (P : ProcessInfo → Type 0) (p : ProcessInfo) (ps : List ProcessInfo)
    → P p
    → All P ps
    → All P (insert p ps)
unfolding insert
insert-All P p [] h hs = (h, tt)
insert-All P p (q ∷ qs) h hs = elim (Bool-cases (compare_by_memory q p)) [
  | inl more ↦ rw more (hs.0, insert-All P p qs h hs.1)
  | inr less ↦ rw less (h, hs)
]

-- `compare_by_memory c b` is `c` uses more than `b`.
All-lower :
    (p q : ProcessInfo) (qs : List ProcessInfo)
    → compare_by_memory q p ≡ false
    → All (λ r. compare_by_memory r q ≡ false) qs
    → All (λ r. compare_by_memory r p ≡ false) qs
unfolding compare_by_memory
All-lower p q [] h hs = tt
All-lower p q (r ∷ qs) h hs =
    (int_ltb_trans r.memory_kb q.memory_kb p.memory_kb hs.0 h, All-lower p q qs h hs.1)

compare_asym : (p q : ProcessInfo) → compare_by_memory q p ≡ true → compare_by_memory p q ≡ false
unfolding compare_by_memory
compare_asym p q h = int_ltb-asym p.memory_kb q.memory_kb h

insert-IsDescending :
    (p : ProcessInfo) (ps : List ProcessInfo) → IsDescending ps → IsDescending (insert p ps)
unfolding insert
insert-IsDescending p [] h = (tt, tt)
insert-IsDescending p (q ∷ qs) h = elim (Bool-cases (compare_by_memory q p)) [
  | inl more ↦ rw more (
    insert-All (λ r. compare_by_memory r q ≡ false) p qs (compare_asym p q more) h.0,
    insert-IsDescending p qs h.1,
  )
  | inr less ↦ rw less ((less, All-lower p q qs less h.0), h)
]

insert-perm : (p : ProcessInfo) (ps : List ProcessInfo) → Perm (insert p ps) (p ∷ ps)
unfolding insert
insert-perm p [] = Perm.rfl
insert-perm p (q ∷ qs) = elim (Bool-cases (compare_by_memory q p)) [
  | inl more ↦ rw more (Perm.trans (Perm.cons q (insert-perm p qs)) (Perm.swap p q qs))
  | inr less ↦ rw less Perm.rfl
]

sort-IsDescending : (ps : List ProcessInfo) → IsDescending (sort ps)
unfolding sort
sort-IsDescending [] = tt
sort-IsDescending (p ∷ ps) = insert-IsDescending p (sort ps) (sort-IsDescending ps)

pub sort-perm : (ps : List ProcessInfo) → Perm (sort ps) ps
unfolding sort
sort-perm [] = Perm.rfl
sort-perm (p ∷ ps) = Perm.trans (insert-perm p (sort ps)) (Perm.cons p (sort-perm ps))

sort-All : (P : ProcessInfo → Type 0) (ps : List ProcessInfo) → All P ps → All P (sort ps)
unfolding sort
sort-All P [] h = tt
sort-All P (p ∷ ps) h = insert-All P p (sort ps) h.0 (sort-All P ps h.1)

length-insert : (p : ProcessInfo) (ps : List ProcessInfo) → length (insert p ps) ≡ length ps + 1
unfolding insert
length-insert p [] = omega arith
length-insert p (q ∷ qs) = ground (arith, length-insert p qs)

length-sort : (ps : List ProcessInfo) → length (sort ps) ≡ length ps
unfolding sort
length-sort [] = refl
length-sort (p ∷ ps) = omega (arith, length-insert p (sort ps), length-sort ps)

-- 1 for an entry that is listed.
abbrev pub listed : Entry → ℕ
listed e = if is_listed e then 1 else 0

both : (a b : Bool) → (a && b) ≡ true → (a ≡ true) × (b ≡ true)
both true b h = (refl, h)
both false b h = cc

collect-All : (es : List Entry) → All IsShown (collect es) × (length (collect es) ≡ tally listed es)
unfolding collect info
collect-All [] = (tt, refl)
collect-All (e ∷ es) =
    let (shown, count) = collect-All es in
    elim (Bool-cases (is_listed e)) [
      | inl yes' ↦ rw yes' ((both _ _ yes', shown), omega arith)
      | inr no' ↦ rw no' (shown, omega arith)
    ]

-- What is displayed is in descending order of memory: nobody uses more than a process above. It is a
-- rearrangement of what the loop has collected, one process for each entry of the directory that has
-- only digits in its name and more than 10000 kB, and each one displayed is such a process.
pub report_outcome :
    (es : List Entry)
    → IsDescending (report es)
      × Perm (report es) (collect es)
      × All IsShown (report es)
      × (length (report es) ≡ tally listed es)
unfolding report
report_outcome es =
    let (shown, count) = collect-All es in
    (
      sort-IsDescending (collect es),
      sort-perm (collect es),
      sort-All IsShown (collect es) shown,
      length-sort (collect es) ∙ count,
    )
