-- ===== src/SystemMonitor/Processes.antt =====
-- Lab5b: the parent and its two monitors, under every order of their steps.
use unx511_unix_systems_prog.Prelude.{
  ℕ, Bool, true, false, List, [], ◌∷◌, if◌then◌else◌, All, tally, tally-append, All-append, ◌≡◌,
  ◌≢◌, ◌⊎◌, inl, inr, refl, sym, ap, subst, ◌∙◌, arith,
}
use unx511_unix_systems_prog.SystemMonitor.{
  Files, monitor_loop, monitor_main, Intf, lo, ens33, intf_name, sigusr1, sigusr2, Child, running,
  reaped, zombie, Parent, initializes, records, waits, finished, System, kill, kill_all, child_of,
  set_child, end_child, reap, wait_over, parent_moves_at, Event, child_ends, parent_moves,
  parent_reaps, step, run, forked,
}

-- Ended by itself, or by the start signal.
abbrev pub IsEnd : ℕ → Type 0
IsEnd status = (status ≡ 0) ⊎ (status ≡ sigusr1)

abbrev pub gone : Child → ℕ
gone reaped = 1
gone running = 0
gone (zombie status) = 0

-- How often a report is about child i.
abbrev pub about : Intf → (Intf × ℕ) → ℕ
about lo (lo, status) = 1
about lo (ens33, status) = 0
about ens33 (lo, status) = 0
about ens33 (ens33, status) = 1

abbrev ChildKept : Parent → Child → Type 0
ChildKept p running = p ≡ initializes
ChildKept p (zombie status) = IsEnd status
ChildKept p reaped = Unit

abbrev Over : Parent → Child → Type 0
Over finished c = gone c ≡ 1
Over _ c = Unit

-- What holds of child i in a state.
abbrev Kept : Intf → Parent → Child → List (Intf × ℕ) → Type 0
Kept i p c reports = ChildKept p c × (tally (about i) reports ≡ gone c) × Over p c

abbrev IsValid : System → Type 0
IsValid s =
    (s.network_log ≡ [])
    × All (λ r. IsEnd r.1) s.reports
    × Kept lo s.parent s.lo_child s.reports
    × Kept ens33 s.parent s.ens33_child s.reports

monitor_main-nil : (argument : List ℕ) (rounds : List Files) → monitor_main argument rounds ≡ []
unfolding monitor_main monitor_loop
monitor_main-nil argument [] = refl
monitor_main-nil argument (f ∷ rounds) = refl

-- A child that has run to its end has written nothing.
end_lines :
    (execs : Bool) (argument : List ℕ) (rounds : List Files)
    → (if execs then monitor_main argument rounds else []) ≡ []
end_lines true argument rounds = monitor_main-nil argument rounds
end_lines false argument rounds = refl

end-Kept :
    (i : Intf) (p : Parent) (reports : List (Intf × ℕ))
    → Kept i p running reports
    → Kept i p (zombie 0) reports
end-Kept i p reports (start, count, over) =
    (inl refl, count, subst (λ q. Over q (zombie 0)) (sym start) tt)

-- The signals.
start-Kept :
    (i : Intf) (p : Parent) (c : Child) (reports : List (Intf × ℕ))
    → p ≡ initializes
    → Kept i p c reports
    → Kept i records (kill sigusr1 c) reports
unfolding kill
start-Kept i p running reports e (start, count, over) = (inr refl, count, tt)
start-Kept i p (zombie status) reports e (end, count, over) = (end, count, tt)
start-Kept i p reaped reports e (end, count, over) = (tt, count, tt)

stop-Kept :
    (i : Intf) (c : Child) (reports : List (Intf × ℕ))
    → Kept i records c reports
    → Kept i waits (kill sigusr2 c) reports
unfolding kill
stop-Kept i running reports (start, count, over) = absurd cc
stop-Kept i (zombie status) reports (end, count, over) = (end, count, tt)
stop-Kept i reaped reports (end, count, over) = (tt, count, tt)

end_child-IsValid :
    (i : Intf) (execs : Bool) (rounds : List Files) (c : Child) (s : System)
    → child_of i s ≡ c
    → IsValid s
    → IsValid (end_child i execs rounds c s)
unfolding end_child set_child child_of
end_child-IsValid lo execs rounds running s e (log, ends, kept, other) = (
  rw (log, end_lines execs (intf_name lo) rounds) refl,
  ends,
  end-Kept lo s.parent s.reports (subst (λ c. Kept lo s.parent c s.reports) e kept),
  other,
)
end_child-IsValid ens33 execs rounds running s e (log, ends, other, kept) = (
  rw (log, end_lines execs (intf_name ens33) rounds) refl,
  ends,
  other,
  end-Kept ens33 s.parent s.reports (subst (λ c. Kept ens33 s.parent c s.reports) e kept),
)
end_child-IsValid i execs rounds (zombie status) s e h = h
end_child-IsValid i execs rounds reaped s e h = h

Over-reaped : (p : Parent) → Over p reaped
Over-reaped initializes = tt
Over-reaped records = tt
Over-reaped waits = tt
Over-reaped finished = refl

reap-IsValid :
    (i : Intf) (p : Parent) (c : Child) (s : System)
    → child_of i s ≡ c
    → IsValid s
    → IsValid (reap i p c s)
unfolding reap set_child child_of
reap-IsValid lo waits (zombie status) s e (log, ends, kept, other) =
    let (end, count, over) = subst (λ c. Kept lo s.parent c s.reports) e kept in
    (
      log,
      All-append (λ r. IsEnd r.1) s.reports ((lo, status) ∷ []) ends (end, tt),
      (
        tt,
        tally-append (about lo) s.reports ((lo, status) ∷ []) ∙ omega (arith, count),
        Over-reaped s.parent,
      ),
      (
        other.0,
        tally-append (about ens33) s.reports ((lo, status) ∷ []) ∙ omega (arith, other.1),
        other.2,
      ),
    )
reap-IsValid ens33 waits (zombie status) s e (log, ends, other, kept) =
    let (end, count, over) = subst (λ c. Kept ens33 s.parent c s.reports) e kept in
    (
      log,
      All-append (λ r. IsEnd r.1) s.reports ((ens33, status) ∷ []) ends (end, tt),
      (
        other.0,
        tally-append (about lo) s.reports ((ens33, status) ∷ []) ∙ omega (arith, other.1),
        other.2,
      ),
      (
        tt,
        tally-append (about ens33) s.reports ((ens33, status) ∷ []) ∙ omega (arith, count),
        Over-reaped s.parent,
      ),
    )
reap-IsValid i p c s e h = h

wait_over-IsValid :
    (c d : Child) (s : System)
    → s.lo_child ≡ c
    → s.ens33_child ≡ d
    → IsValid s
    → IsValid (wait_over c d s)
unfolding wait_over
wait_over-IsValid reaped reaped s e e' (log, ends, kept, kept') = (
  log,
  ends,
  (subst (ChildKept finished) (sym e) tt, kept.1, ap gone e),
  (subst (ChildKept finished) (sym e') tt, kept'.1, ap gone e'),
)
wait_over-IsValid c d s e e' h = h

parent_moves-IsValid :
    (p : Parent) (s : System) → s.parent ≡ p → IsValid s → IsValid (parent_moves_at p s)
unfolding parent_moves_at kill_all
parent_moves-IsValid initializes s e (log, ends, kept, kept') = (
  log,
  ends,
  start-Kept lo s.parent s.lo_child s.reports e kept,
  start-Kept ens33 s.parent s.ens33_child s.reports e kept',
)
parent_moves-IsValid records s e (log, ends, kept, kept') = (
  log,
  ends,
  stop-Kept lo s.lo_child s.reports (subst (λ p. Kept lo p s.lo_child s.reports) e kept),
  stop-Kept ens33 s.ens33_child s.reports
      (subst (λ p. Kept ens33 p s.ens33_child s.reports) e kept'),
)
parent_moves-IsValid waits s e h = wait_over-IsValid s.lo_child s.ens33_child s refl refl h
parent_moves-IsValid finished s e h = h

step-IsValid : (e : Event) (s : System) → IsValid s → IsValid (step e s)
unfolding step
step-IsValid (child_ends i execs rounds) s h =
    end_child-IsValid i execs rounds (child_of i s) s refl h
step-IsValid parent_moves s h = parent_moves-IsValid s.parent s refl h
step-IsValid (parent_reaps i) s h = reap-IsValid i s.parent (child_of i s) s refl h

run-IsValid : (es : List Event) (s : System) → IsValid s → IsValid (run es s)
unfolding run
run-IsValid [] s h = h
run-IsValid (e ∷ es) s h = run-IsValid es (step e s) (step-IsValid e s h)

not_running :
    (i : Intf) (p : Parent) (c : Child) (reports : List (Intf × ℕ))
    → Kept i p c reports
    → p ≢ initializes
    → c ≢ running
not_running i p c reports h n = λ e. n (subst (ChildKept p) e h.0)

all_reported :
    (i : Intf) (p : Parent) (c : Child) (reports : List (Intf × ℕ))
    → Kept i p c reports
    → p ≡ finished
    → tally (about i) reports ≡ 1
all_reported i p c reports h e = h.1 ∙ subst (λ q. Over q c) e h.2

-- Whatever the order of the steps and whatever the files hold: nothing is ever written into
-- Network.log; a reported status is 0 or the number of the start signal; once that signal has been sent no
-- child runs, so that a wait does not block; and at the end each child has been reported once.
pub run_records_nothing :
    (es : List Event)
    → let s = run es forked in
      (s.network_log ≡ [])
      × All (λ r. IsEnd r.1) s.reports
      × (s.parent ≢ initializes → (s.lo_child ≢ running) × (s.ens33_child ≢ running))
      × (s.parent ≡ finished
          → (tally (about lo) s.reports ≡ 1) × (tally (about ens33) s.reports ≡ 1))
run_records_nothing es =
    let s = run es forked in
    let (log, ends, kept, kept') =
      run-IsValid es forked (refl, tt, (refl, refl, tt), (refl, refl, tt)) in
    (
      log,
      ends,
      λ n. (
        not_running lo s.parent s.lo_child s.reports kept n,
        not_running ens33 s.parent s.ens33_child s.reports kept' n,
      ),
      λ e. (
        all_reported lo s.parent s.lo_child s.reports kept e,
        all_reported ens33 s.parent s.ens33_child s.reports kept' e,
      ),
    )
