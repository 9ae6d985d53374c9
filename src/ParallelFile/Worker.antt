-- ===== src/ParallelFile/Worker.antt =====
-- assignment1/parallel_file/worker.c and binary_generator.c: what a worker keeps of its file, and whom
-- it signals.
use unx511_unix_systems_prog.Prelude.{
  ℕ, zero, suc, ◌+◌, ◌*◌, ◌≤◌, ◌<◌, List, [], ◌∷◌, ◌++◌, if◌then◌else◌, length, ◌≡◌, refl, arith,
  ap, ◌∙◌, sym, length-append, tally, tally-append,
}
use mathlib.Core.List.{append_assoc, append-nil}
use unx511_unix_systems_prog.Prelude.Int.{pos}
use unx511_unix_systems_prog.ParallelFile.{
  megabyte, accum_len, repeat, generate_binary_file, Signal, sigusr1, sigusr2, accumulate,
  memory_kb, exceeds, Round, worker_loop, worker_process,
}

-- The file that the reads come from.
abbrev pub contents : List Round → List ℕ
contents [] = []
contents (r ∷ rs) = r.bytes ++ contents rs

abbrev pub is_usr1 : Signal → ℕ
is_usr1 sigusr1 = 1
is_usr1 sigusr2 = 0

abbrev pub is_over : Round → ℕ
is_over r = if exceeds (memory_kb r.status) then 1 else 0

accumulate-bound :
    (accum bytes : List ℕ) → length accum < accum_len → length (accumulate accum bytes) < accum_len
unfolding accumulate
accumulate-bound accum bytes h = ground (arith, length-append accum bytes)

loop-bound :
    (accum : List ℕ) (rs : List Round)
    → length accum < accum_len
    → length (worker_loop accum rs).0 < accum_len
unfolding worker_loop
loop-bound accum [] h = h
loop-bound accum (r ∷ rs) h =
    loop-bound (accumulate accum r.bytes) rs (accumulate-bound accum r.bytes h)

accumulate_fits :
    (accum bytes : List ℕ)
    → length accum + length bytes < accum_len
    → accumulate accum bytes ≡ accum ++ bytes
unfolding accumulate
accumulate_fits accum bytes h = ground arith

loop_keeps :
    (accum : List ℕ) (rs : List Round)
    → length accum + length (contents rs) < accum_len
    → (worker_loop accum rs).0 ≡ accum ++ contents rs
unfolding worker_loop
loop_keeps accum [] h = sym (append-nil accum)
loop_keeps accum (r ∷ rs) h =
    let both = length-append r.bytes (contents rs) in
    let longer = length-append accum r.bytes in
    ap (λ a. (worker_loop a rs).0) (accumulate_fits accum r.bytes (omega arith))
    ∙ loop_keeps (accum ++ r.bytes) rs (omega arith)
    ∙ append_assoc accum r.bytes (contents rs)

round_signals :
    (r : Round)
    → tally is_usr1 (if exceeds (memory_kb r.status) then sigusr1 ∷ [] else []) ≡ is_over r
round_signals r = ground arith

loop_signals :
    (accum : List ℕ) (rs : List Round) → tally is_usr1 (worker_loop accum rs).1 ≡ tally is_over rs
unfolding worker_loop
loop_signals accum [] = refl
loop_signals accum (r ∷ rs) =
    let rest = (worker_loop (accumulate accum r.bytes) rs).1 in
    tally-append is_usr1 (if exceeds (memory_kb r.status) then sigusr1 ∷ [] else []) rest
    ∙ omega (arith, round_signals r, loop_signals (accumulate accum r.bytes) rs)

length-repeat : (n : ℕ) (buffer : List ℕ) → length (repeat n buffer) ≡ n * length buffer
unfolding repeat
length-repeat zero buffer = omega arith
length-repeat (suc n) buffer =
    length-append buffer (repeat n buffer) ∙ ground (arith, length-repeat n buffer)

length-generate_binary_file :
    (n : ℕ) (buffer : List ℕ) → length (generate_binary_file (pos n) buffer) ≡ n * length buffer
unfolding generate_binary_file
length-generate_binary_file n buffer = length-repeat n buffer

-- The parent's files fit a worker up to 59 megabytes.
generated_fits :
    (n : ℕ) (buffer : List ℕ)
    → length buffer ≡ megabyte
    → n < 60
    → length (generate_binary_file (pos n) buffer) < accum_len
generated_fits n buffer e h =
    let total = length-generate_binary_file n buffer ∙ ap (λ k. n * k) e in omega (arith, total)

-- A worker never writes past its 60 megabytes. Of a file that is smaller than that it keeps all bytes,
-- in order, however the reads divide it. It sends one SIGUSR1 for each read after which its memory is
-- above 50000 kB, and then, as its last signal, SIGUSR2. A file that the parent has generated with a
-- size of at most 59 megabytes is small enough.
pub worker_outcome :
    (rs : List Round)
    → (length (worker_process rs).0 < accum_len)
      × (length (contents rs) < accum_len → (worker_process rs).0 ≡ contents rs)
      × ((signals : List Signal) × ((worker_process rs).1 ≡ signals ++ (sigusr2 ∷ []))
          × (tally is_usr1 signals ≡ tally is_over rs))
      × ((n : ℕ) (buffer : List ℕ)
          → length buffer ≡ megabyte
          → n ≤ 59
          → contents rs ≡ generate_binary_file (pos n) buffer
          → (worker_process rs).0 ≡ generate_binary_file (pos n) buffer)
unfolding worker_process
worker_outcome rs = (
  loop-bound [] rs (omega arith),
  (λ small. loop_keeps [] rs (omega arith)),
  ((worker_loop [] rs).1, refl, loop_signals [] rs),
  λ n buffer e small file.
      loop_keeps [] rs
        (let fits = generated_fits n buffer e (omega arith) in omega (arith, ap length file))
      ∙ file,
)
