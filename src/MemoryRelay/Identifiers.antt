-- ===== src/MemoryRelay/Identifiers.antt =====
-- Lab10: every segment in use has an identifier that was given before.
use unx511_unix_systems_prog.Prelude.{
  put_intro, put_other, ℕ, zero, suc, ◌<◌, Bool, true, false, Option, none, some, List, [], ◌∷◌,
  ◌==◌, ◌≡◌, ◌≢◌, refl, replicate, subst, ◌∙◌, arith, Bool-cases, inl, inr,
}
use unx511_unix_systems_prog.MemoryRelay.{Pc, finished, Local, advance}
use unx511_unix_systems_prog.MemoryRelay.Segment.{
  Phase, gets, returned, refused, attaches, removes, runs, World, set_phase, create, loaded, unbind,
  remove, access, moves, sig_handler, Move, calls, interrupts, step, run,
}

-- The segment that a client uses.
abbrev pub uses : Phase → Option ℕ
uses (attaches id) = some id
uses (removes id) = some id
uses (runs id l) = some id
uses gets = none
uses returned = none
uses refused = none

-- What a client uses is below a bound.
abbrev pub Below : ℕ → Option ℕ → Type 0
Below n none = Unit
Below n (some id) = id < n

abbrev pub IsValid : World → Type 0
IsValid w = ((m : ℕ) → Below w.ipc.next (uses (w.phases m))) × Below w.ipc.next w.ipc.bound

-- A client that goes on with its segment, or with none.
phase-IsValid :
    (n : ℕ) (p : Phase) (w : World)
    → Below w.ipc.next (uses p)
    → IsValid w
    → IsValid (set_phase n p w)
phase-IsValid n p w h (used, bound) =
    (put_intro (λ q. Below w.ipc.next (uses q)) n p w.phases h used, bound)

Below-suc : (n : ℕ) (o : Option ℕ) → Below n o → Below (suc n) o
Below-suc n none h = tt
Below-suc n (some id) h = omega arith

Below-unbind : (n id : ℕ) (o : Option ℕ) → Below n o → Below n (unbind id o)
unfolding unbind
Below-unbind n id none h = tt
Below-unbind n id (some b) h = elim (Bool-cases (id == b)) [
  | inl same ↦ rw same tt
  | inr other ↦ rw other h
]

create-IsValid :
    (n : ℕ) (o : Option ℕ) (w : World) → w.ipc.bound ≡ o → IsValid w → IsValid (create n o w)
unfolding create
create-IsValid n (some id) w e h =
    phase-IsValid n (attaches id) w (subst (Below w.ipc.next) e h.1) h
create-IsValid n none w e h = (
  put_intro (λ q. Below (suc w.ipc.next) (uses q)) n (attaches w.ipc.next) w.phases (omega arith)
      (λ m. Below-suc w.ipc.next _ (h.0 m)),
  omega arith,
)

access-IsValid :
    (n id : ℕ) (p : Pc) (l : Local) (w : World)
    → id < w.ipc.next
    → IsValid w
    → IsValid (access n id p l w)
unfolding access
access-IsValid n id finished l w h v = phase-IsValid n (removes id) w h v
access-IsValid n id p l w h v = phase-IsValid n (runs id (advance n p l (w.segments id)).0) w h v

pub moves-IsValid :
    (n : ℕ) (granted : Bool) (p : Phase) (w : World)
    → w.phases n ≡ p
    → IsValid w
    → IsValid (moves n granted p w)
unfolding moves remove
moves-IsValid n true gets w e h = create-IsValid n w.ipc.bound w refl h
moves-IsValid n false gets w e h = phase-IsValid n refused w tt h
moves-IsValid n true (attaches id) w e h =
    phase-IsValid n (runs id (loaded n (w.is_running n))) w
      (subst (λ q. Below w.ipc.next (uses q)) e (h.0 n)) h
moves-IsValid n false (attaches id) w e h = phase-IsValid n refused w tt h
moves-IsValid n granted (runs id l) w e h =
    access-IsValid n id l.pc l w (subst (λ q. Below w.ipc.next (uses q)) e (h.0 n)) h
moves-IsValid n granted (removes id) w e h = (
  put_intro (λ q. Below w.ipc.next (uses q)) n returned w.phases tt h.0,
  Below-unbind w.ipc.next id w.ipc.bound h.1,
)
moves-IsValid n granted returned w e h = h
moves-IsValid n granted refused w e h = h

sig_handler-IsValid :
    (n : ℕ) (p : Phase) (w : World) → w.phases n ≡ p → IsValid w → IsValid (sig_handler n p w)
unfolding sig_handler
sig_handler-IsValid n (runs id l) w e (used, bound) = (
  put_intro (λ q. Below w.ipc.next (uses q)) n (runs id (record l { is_running = false })) w.phases
      (subst (λ q. Below w.ipc.next (uses q)) e (used n)) used,
  bound,
)
sig_handler-IsValid n p w e v = v

pub step-IsValid : (e : Move) (w : World) → IsValid w → IsValid (step e w)
unfolding step
step-IsValid (calls n granted) w h = moves-IsValid n granted (w.phases n) w refl h
step-IsValid (interrupts n) w h = sig_handler-IsValid n (w.phases n) w refl h

pub run-IsValid : (es : List Move) (w : World) → IsValid w → IsValid (run es w)
unfolding run
run-IsValid [] w h = h
run-IsValid (e ∷ es) w h = run-IsValid es (step e w) (step-IsValid e w h)

pub not_next : (n : ℕ) (o : Option ℕ) → Below n o → o ≢ some n
not_next n none h = λ e. cc
not_next n (some id) h = λ e. (let same : id ≡ n = cc in omega (arith, same, h))

create_other : (n m : ℕ) (o : Option ℕ) (w : World) → n ≢ m → (create n o w).phases m ≡ w.phases m
unfolding create
create_other n m none w h = put_other n m (attaches w.ipc.next) w.phases h
create_other n m (some id) w h = put_other n m (attaches id) w.phases h

access_other :
    (n m id : ℕ) (p : Pc) (l : Local) (w : World)
    → n ≢ m
    → (access n id p l w).phases m ≡ w.phases m
unfolding access
access_other n m id finished l w h = put_other n m (removes id) w.phases h
access_other n m id p l w h = put_other n m (runs id (advance n p l (w.segments id)).0) w.phases h

remove_other : (n m id : ℕ) (w : World) → n ≢ m → (remove n id w).phases m ≡ w.phases m
unfolding remove
remove_other n m id w h = put_other n m returned w.phases h

moves_other :
    (n m : ℕ) (granted : Bool) (p : Phase) (w : World)
    → n ≢ m
    → (moves n granted p w).phases m ≡ w.phases m
unfolding moves
moves_other n m true gets w h = create_other n m w.ipc.bound w h
moves_other n m false gets w h = put_other n m refused w.phases h
moves_other n m true (attaches id) w h =
    put_other n m (runs id (loaded n (w.is_running n))) w.phases h
moves_other n m false (attaches id) w h = put_other n m refused w.phases h
moves_other n m granted (runs id l) w h = access_other n m id l.pc l w h
moves_other n m granted (removes id) w h = remove_other n m id w h
moves_other n m granted returned w h = refl
moves_other n m granted refused w h = refl

-- The steps of one client leave another where it is.
pub run_other :
    (k n m : ℕ) (w : World) → n ≢ m → (run (replicate k (calls n true)) w).phases m ≡ w.phases m
unfolding run step
run_other zero n m w h = refl
run_other (suc k) n m w h =
    run_other k n m (moves n true (w.phases n) w) h ∙ moves_other n m true (w.phases n) w h
