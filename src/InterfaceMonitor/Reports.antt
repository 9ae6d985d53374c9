-- ===== src/InterfaceMonitor/Reports.antt =====
-- assignment2/src/intfMonitor.cpp: what a monitor reports, and which commands it can still take.
use unx511_unix_systems_prog.Prelude.{
  ℕ, some, List, [], ◌∷◌, ◌++◌, if◌then◌else◌, ◌≡◌, refl, arith, ap, tally,
}
use unx511_unix_systems_prog.NetworkMonitor.{monitor, link_down}
use unx511_unix_systems_prog.Prelude.Bytes.{codes, bytes_eq}
use unx511_unix_systems_prog.InterfaceMonitor.{
  Pc, watching, exited, Effect, wrote, set_up, Event, reads, ticks, sigint, serve, step, run,
  session,
}

-- No ctrl-C among the events.
abbrev pub Undisturbed : List Event → Type 0
Undisturbed [] = Unit
Undisturbed (sigint ∷ es) = ⊥
Undisturbed (_ ∷ es) = Undisturbed es

-- One "Link Down" for each round in which the state is another text than "up".
abbrev pub reports : List Event → List Effect
reports [] = []
reports (ticks state ∷ es) =
    (if bytes_eq state (codes "up") then [] else wrote link_down ∷ []) ++ reports es
reports (_ ∷ es) = reports es

abbrev pub sets_up : Effect → ℕ
sets_up set_up = 1
sets_up _ = 0

-- Once it watches its interface, a monitor goes on with that until ctrl-C and does just this: it
-- writes one "Link Down" for each round in which the state is not "up". Whatever comes over the
-- socket meanwhile has no effect.
pub watching_reports : (es : List Event) → Undisturbed es → run watching es ≡ (watching, reports es)
unfolding run step
watching_reports [] u = refl
watching_reports (reads s ∷ es) u = watching_reports es u
watching_reports (ticks state ∷ es) u = rw (watching_reports es u)
watching_reports (sigint ∷ es) u = elim u [ ]

exited_silent : (es : List Event) → run exited es ≡ (exited, [])
unfolding run step
exited_silent [] = refl
exited_silent (e ∷ es) = rw (exited_silent es)

watching_never_sets_up : (es : List Event) → tally sets_up (run watching es).1 ≡ 0
unfolding run step
watching_never_sets_up [] = refl
watching_never_sets_up (reads s ∷ es) = watching_never_sets_up es
watching_never_sets_up (ticks state ∷ es) = ground (arith, watching_never_sets_up es)
watching_never_sets_up (sigint ∷ es) =
    omega (arith, ap (λ (r : Pc × List Effect). tally sets_up r.1) (exited_silent es))

-- In a session in which the first thing read is "Monitor", as the network monitor sends it, the
-- interface is never set up, whatever is read after that, "Set Link Up" included.
pub session_never_sets_up :
    (es : List Event) → tally sets_up (session (reads (some monitor) ∷ es)).1 ≡ 0
unfolding session
session_never_sets_up es = unfold run step serve in omega (arith, watching_never_sets_up es)
