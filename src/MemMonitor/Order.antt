-- ===== src/MemMonitor/Order.antt =====
-- Lab1/MemMonitor.cpp: the display and the order in which the directory lists its entries.
use unx511_unix_systems_prog.Prelude.{
  Bool, Option, none, some, true, false, List, [], ◌∷◌, ◌≡◌, refl, sym, ap, ◌∙◌, arith, map,
  Bool-cases, inl, inr, if◌then◌else◌,
}
use unx511_unix_systems_prog.Prelude.Int.{ℤ, pos, negsuc}
use mathlib.Core.List
use mathlib.Core.List.{Perm, foldr}
use mathlib.Core.List.Perm
use mathlib.Core.Bool.{true≢false}
use unx511_unix_systems_prog.MemMonitor.{
  ProcessInfo, int_ltb, compare_by_memory, get_memory_kb, Entry, is_listed, info, collect, insert,
  sort, report,
}
use unx511_unix_systems_prog.MemMonitor.Report.{int_ltb-asym, int_ltb_trans, sort-perm}

-- The memory column alone, as sort and the loop treat it.
unfoldable place : ℤ → List ℤ → List ℤ
place a [] = a ∷ []
place a (b ∷ bs) = if int_ltb a b then b ∷ place a bs else a ∷ b ∷ bs

int_ltb-eq : (a b : ℤ) → int_ltb a b ≡ false → int_ltb b a ≡ false → a ≡ b
int_ltb-eq (pos m) (pos n) h k = ap pos (ground arith)
int_ltb-eq (pos m) (negsuc n) h k = cc
int_ltb-eq (negsuc m) (pos n) h k = cc
int_ltb-eq (negsuc m) (negsuc n) h k = ap negsuc (ground arith)

int_ltb_below : (a b c : ℤ) → int_ltb a c ≡ true → int_ltb b c ≡ false → int_ltb a b ≡ true
int_ltb_below a b c h k = elim (Bool-cases (int_ltb a b)) [
  | inl less ↦ less
  | inr more ↦ absurd (true≢false (sym h ∙ int_ltb_trans c b a k more))
]

-- Two values that both belong at the front.
place_pair :
    (a b : ℤ) (xs : List ℤ)
    → place a xs ≡ a ∷ xs
    → place b xs ≡ b ∷ xs
    → place a (b ∷ xs) ≡ place b (a ∷ xs)
unfolding place
place_pair a b xs ha hb = elim (Bool-cases (int_ltb a b)) [
  | inl less ↦ rw (less, int_ltb-asym a b less, ha) refl
  | inr more ↦ elim (Bool-cases (int_ltb b a)) [
    | inl less ↦ rw (more, less, hb) refl
    | inr same ↦
        let e = int_ltb-eq a b more same in
        ap (λ c. place c (b ∷ xs)) e ∙ ap (λ c. place b (c ∷ xs)) (sym e)
  ]
]

-- `c` is more than `a` and not more than `b`.
place_between :
    (a b c : ℤ) (cs : List ℤ)
    → int_ltb a c ≡ true
    → int_ltb b c ≡ false
    → place a (place b (c ∷ cs)) ≡ place b (place a (c ∷ cs))
unfolding place
place_between a b c cs h k = rw (k, int_ltb_below a b c h k, h, k) refl

-- A value that is not above the first one belongs at the front.
place_front : (a c : ℤ) (cs : List ℤ) → int_ltb a c ≡ false → place a (c ∷ cs) ≡ a ∷ c ∷ cs
unfolding place
place_front a c cs h = rw h refl

place_below :
    (a b c : ℤ) (cs : List ℤ)
    → int_ltb a c ≡ true
    → int_ltb b c ≡ true
    → place a (place b cs) ≡ place b (place a cs)
    → place a (place b (c ∷ cs)) ≡ place b (place a (c ∷ cs))
unfolding place
place_below a b c cs h k rest = rw (k, h, k) (ap (λ l. c ∷ l) rest)

place_comm : (a b : ℤ) (xs : List ℤ) → place a (place b xs) ≡ place b (place a xs)
unfolding place
place_comm a b [] = place_pair a b [] refl refl
place_comm a b (c ∷ cs) = elim (Bool-cases (int_ltb a c)) [
  | inl ac ↦ elim (Bool-cases (int_ltb b c)) [
    | inl bc ↦ place_below a b c cs ac bc (place_comm a b cs)
    | inr bc ↦ place_between a b c cs ac bc
  ]
  | inr ac ↦ elim (Bool-cases (int_ltb b c)) [
    | inl bc ↦ sym (place_between b a c cs bc ac)
    | inr bc ↦
        ap (place a) (place_front b c cs bc)
        ∙ place_pair a b (c ∷ cs) (place_front a c cs ac) (place_front b c cs bc)
        ∙ ap (place b) (sym (place_front a c cs ac))
  ]
]

-- The column of the memory.
abbrev pub column : List ProcessInfo → List ℤ
column ps = map (λ p. p.memory_kb) ps

column_set : IsSet (List ℤ)
column_set = hlevel

place_if : Bool → ℤ → List ℤ → List ℤ
place_if true a xs = place a xs
place_if false a xs = xs

place_if_comm :
    (p q : Bool) (a b : ℤ) (xs : List ℤ)
    → place_if p a (place_if q b xs) ≡ place_if q b (place_if p a xs)
unfolding place_if
place_if_comm true true a b xs = place_comm a b xs
place_if_comm true false a b xs = refl
place_if_comm false q a b xs = refl

-- The column after one more entry.
unfoldable step : Entry → List ℤ → List ℤ
step e xs = place_if (is_listed e) (get_memory_kb e.junk e.memory_status) xs

step_comm : (d e : Entry) (xs : List ℤ) → step d (step e xs) ≡ step e (step d xs)
unfolding step
step_comm d e xs = place_if_comm (is_listed d) (is_listed e) _ _ xs

column-insert :
    (p : ProcessInfo) (ps : List ProcessInfo) → column (insert p ps) ≡ place p.memory_kb (column ps)
unfolding insert place compare_by_memory
column-insert p [] = refl
column-insert p (q ∷ qs) = elim (Bool-cases (int_ltb p.memory_kb q.memory_kb)) [
  | inl less ↦ rw less (ap (λ l. q.memory_kb ∷ l) (column-insert p qs))
  | inr more ↦ rw more refl
]

column-report : (es : List Entry) → column (report es) ≡ foldr step [] es
unfolding report collect sort step info place_if
column-report [] = refl
column-report (e ∷ es) = elim (Bool-cases (is_listed e)) [
  | inl yes' ↦ rw yes' (
      column-insert (info e) (report es)
      ∙ ap (place (get_memory_kb e.junk e.memory_status)) (column-report es))
  | inr no' ↦ rw no' (column-report es)
]

shown : Entry → Option ProcessInfo
shown e = if is_listed e then some (info e) else none

collect-filter_map : (es : List Entry) → collect es ≡ List.filter_map shown es
unfolding collect shown List.filter_map
collect-filter_map [] = refl
collect-filter_map (e ∷ es) = elim (Bool-cases (is_listed e)) [
  | inl yes' ↦ rw yes' (ap (λ l. info e ∷ l) (collect-filter_map es))
  | inr no' ↦ rw no' (collect-filter_map es)
]

collect-perm : {ds es : List Entry} → Perm ds es → Perm (collect ds) (collect es)
collect-perm {ds} {es} h =
    rw (collect-filter_map ds, collect-filter_map es) (Perm.filter_map shown h)

-- The order in which the directory lists its entries does not matter: after any other order the same
-- processes are displayed, and the column of their memory is the same, line for line.
pub report_any_order :
    (ds es : List Entry)
    → Perm ds es
    → Perm (report ds) (report es) × (column (report ds) ≡ column (report es))
unfolding report
report_any_order ds es h = (
  Perm.trans (sort-perm (collect ds))
      (Perm.trans (collect-perm h) (Perm.symm (sort-perm (collect es)))),
  column-report ds ∙ Perm.foldr-eq column_set step step_comm h [] ∙ sym (column-report es),
)
