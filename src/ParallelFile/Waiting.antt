-- ===== src/ParallelFile/Waiting.antt =====
-- assignment1/parallel_file/main.c and signals.c: how long the parent waits for its workers.
use unx511_unix_systems_prog.Prelude.{
  ℕ, zero, suc, ◌+◌, ◌-◌, ◌≤◌, List, [], ◌∷◌, ◌≡◌, arith, length, take, tally,
}
use unx511_unix_systems_prog.ParallelFile.{
  Parent, waiting, Wakeup, signalled, exited, count_exit, wait_round, wait_all,
}

abbrev at : ℕ → ℕ → Parent
at n k = record { waits_left = n; reaped = k }

all_waits :
    (ws : List Wakeup) (n k : ℕ)
    → ((wait_all ws (at n k)).waits_left ≡ n - length ws)
      × ((wait_all ws (at n k)).reaped ≡ k + tally count_exit (take n ws))
unfolding wait_all wait_round
all_waits [] zero k = (omega arith, omega arith)
all_waits [] (suc n) k = (omega arith, omega arith)
all_waits (w ∷ ws) zero k = let (left, reaped) = all_waits ws zero k in (omega arith, omega arith)
all_waits (w ∷ ws) (suc n) k =
    let (left, reaped) = all_waits ws n (k + count_exit w) in (omega arith, omega arith)

-- Every exit comes behind a signal of its own: the SIGUSR2 that a worker sends before it exits. `n`
-- signals have been there for workers that have not exited.
abbrev pub SignalsFirst : ℕ → List Wakeup → Type 0
SignalsFirst n [] = Unit
SignalsFirst n (signalled worker signal ∷ ws) = SignalsFirst (suc n) ws
SignalsFirst n (exited worker ∷ ws) = (1 ≤ n) × SignalsFirst (n - 1) ws

few_exits : (ws : List Wakeup) → SignalsFirst 0 ws → tally count_exit (take 3 ws) ≤ 1
few_exits [] h = omega arith
few_exits (exited i ∷ ws) h = absurd (omega (arith, h.0))
few_exits (signalled i s ∷ []) h = omega arith
few_exits (signalled i s ∷ signalled j t ∷ []) h = omega arith
few_exits (signalled i s ∷ signalled j t ∷ signalled k u ∷ ws) h = omega arith
few_exits (signalled i s ∷ signalled j t ∷ exited k ∷ ws) h = omega arith
few_exits (signalled i s ∷ exited j ∷ []) h = omega arith
few_exits (signalled i s ∷ exited j ∷ signalled k u ∷ ws) h = omega arith
few_exits (signalled i s ∷ exited j ∷ exited k ∷ ws) h = absurd (omega (arith, h.1.0))

-- The parent's three waits end with the first three wakeups, and it has then seen as many workers end
-- as there are exits among them. If every worker's exit comes behind its SIGUSR2, and each signal ends
-- a wait, then it has seen at most one of the three workers end.
pub wait_all_outcome :
    (ws : List Wakeup)
    → (3 ≤ length ws → (wait_all ws waiting).waits_left ≡ 0)
      × ((wait_all ws waiting).reaped ≡ tally count_exit (take 3 ws))
      × (SignalsFirst 0 ws → (wait_all ws waiting).reaped ≤ 1)
wait_all_outcome ws =
    let (left, reaped) = all_waits ws 3 0 in
    ((λ h. omega arith), omega arith, λ h. omega (arith, few_exits ws h))
