-- ===== src/ParallelFile/Together.antt =====
-- assignment1/parallel_file/main.c with its three workers: what they do wakes the parent, in any
-- interleaving of their signals and exits.
use unx511_unix_systems_prog.Prelude.{
  ℕ, suc, ◌+◌, ◌-◌, ◌≤◌, List, [], ◌∷◌, ◌++◌, ◌≡◌, refl, subst, arith, map, length, length-append,
  tally,
}
use unx511_unix_systems_prog.ParallelFile.{
  Signal, sigusr2, Wakeup, signalled, exited, count_exit, Round, worker_loop, worker_process,
  waiting, wait_all,
}
use unx511_unix_systems_prog.ParallelFile.Waiting.{SignalsFirst, wait_all_outcome}

-- What the parent's wait gets of a worker: its signals, and at last its exit.
unfoldable pub wakeups : ℕ → List Round → List Wakeup
wakeups worker rs = map (signalled worker) (worker_process rs).1 ++ (exited worker ∷ [])

-- The third list takes in turn from the front of the first and of the second, in any order.
pub data Interleaved : List Wakeup → List Wakeup → List Wakeup → Type 0 where
  done : Interleaved [] [] []
  from_first :
      {w : Wakeup} {us vs ws : List Wakeup}
      → Interleaved us vs ws
      → Interleaved (w ∷ us) vs (w ∷ ws)
  from_second :
      {w : Wakeup} {us vs ws : List Wakeup}
      → Interleaved us vs ws
      → Interleaved us (w ∷ vs) (w ∷ ws)

length-Interleaved :
    {us vs ws : List Wakeup} → Interleaved us vs ws → length ws ≡ length us + length vs
length-Interleaved done = refl
length-Interleaved (from_first i) = omega (arith, length-Interleaved i)
length-Interleaved (from_second i) = omega (arith, length-Interleaved i)

tally-Interleaved :
    {us vs ws : List Wakeup}
    → Interleaved us vs ws
    → tally count_exit ws ≡ tally count_exit us + tally count_exit vs
tally-Interleaved done = refl
tally-Interleaved (from_first i) = omega (arith, tally-Interleaved i)
tally-Interleaved (from_second i) = omega (arith, tally-Interleaved i)

moved : {m n : ℕ} (ws : List Wakeup) → m ≡ n → SignalsFirst m ws → SignalsFirst n ws
moved ws e h = subst (λ n. SignalsFirst n ws) e h

Interleaved-SignalsFirst :
    {us vs ws : List Wakeup} (m n : ℕ)
    → Interleaved us vs ws
    → SignalsFirst m us
    → SignalsFirst n vs
    → SignalsFirst (m + n) ws
Interleaved-SignalsFirst m n done h k = tt
Interleaved-SignalsFirst m n (from_first {w = signalled p s} {ws} i) h k =
    moved ws (omega arith) (Interleaved-SignalsFirst (suc m) n i h k)
Interleaved-SignalsFirst m n (from_first {w = exited p} {ws} i) h k =
    (omega (arith, h.0), moved ws (omega (arith, h.0)) (Interleaved-SignalsFirst (m - 1) n i h.1 k))
Interleaved-SignalsFirst m n (from_second {w = signalled p s} {ws} i) h k =
    moved ws (omega arith) (Interleaved-SignalsFirst m (suc n) i h k)
Interleaved-SignalsFirst m n (from_second {w = exited p} {ws} i) h k =
    (omega (arith, k.0), moved ws (omega (arith, k.0)) (Interleaved-SignalsFirst m (n - 1) i h k.1))

-- A worker's signals in front of its exit, at least one.
signals-SignalsFirst :
    (worker n : ℕ) (signals : List Signal)
    → 1 ≤ n + length signals
    → SignalsFirst n (map (signalled worker) signals ++ (exited worker ∷ []))
signals-SignalsFirst worker n [] h = (omega arith, tt)
signals-SignalsFirst worker n (s ∷ ss) h = signals-SignalsFirst worker (suc n) ss (omega arith)

signals-count :
    (worker : ℕ) (signals : List Signal)
    → let ws = map (signalled worker) signals ++ (exited worker ∷ []) in
      (length ws ≡ length signals + 1) × (tally count_exit ws ≡ 1)
signals-count worker [] = (refl, refl)
signals-count worker (s ∷ ss) =
    let (count, exits) = signals-count worker ss in (omega arith, omega arith)

wakeups_outcome :
    (worker : ℕ) (rs : List Round)
    → SignalsFirst 0 (wakeups worker rs)
      × (2 ≤ length (wakeups worker rs))
      × (tally count_exit (wakeups worker rs) ≡ 1)
unfolding wakeups worker_process
wakeups_outcome worker rs =
    let signals = (worker_loop [] rs).1 ++ (sigusr2 ∷ []) in
    let n = length-append (worker_loop [] rs).1 (sigusr2 ∷ []) in
    let (count, exits) = signals-count worker signals in
    (signals-SignalsFirst worker 0 signals (omega arith), omega arith, exits)

-- However the signals and the exits of the three workers fall between each other, whatever each worker
-- reads: if each signal ends a wait, the parent's three waits end, and of the three workers that
-- exit it has seen at most one exit by then.
pub parent_leaves_workers :
    (p q r : ℕ) (ps qs rs : List Round) (us ws : List Wakeup)
    → Interleaved (wakeups p ps) (wakeups q qs) us
    → Interleaved us (wakeups r rs) ws
    → ((wait_all ws waiting).waits_left ≡ 0)
      × ((wait_all ws waiting).reaped ≤ 1)
      × (tally count_exit ws ≡ 3)
parent_leaves_workers p q r ps qs rs us ws i j =
    let (p_first, p_many, p_exits) = wakeups_outcome p ps in
    let (q_first, q_many, q_exits) = wakeups_outcome q qs in
    let (r_first, r_many, r_exits) = wakeups_outcome r rs in
    let outcome = wait_all_outcome ws in
    let first =
      Interleaved-SignalsFirst 0 0 j (Interleaved-SignalsFirst 0 0 i p_first q_first) r_first in
    (
      outcome.0 (omega (arith, length-Interleaved i, length-Interleaved j)),
      outcome.2 first,
      omega (arith, tally-Interleaved i, tally-Interleaved j),
    )
