-- ===== src/ParallelFile/Logged.antt =====
-- assignment1/parallel_file: what is in syslog.log, and how large the files are.
use unx511_unix_systems_prog.Prelude.{
  ℕ, ◌^◌, ◌<◌, ◌&&◌, List, [], ◌∷◌, ◌++◌, if◌then◌else◌, ◌≡◌, refl,
}
use unx511_unix_systems_prog.Prelude.Int.{ℤ, pos}
use unx511_unix_systems_prog.Prelude.Bytes.{show_nat}
use unx511_unix_systems_prog.Prelude.Typed.{scan_stream_line}
use unx511_unix_systems_prog.ParallelFile.{generate_binary_file, Signal}
use unx511_unix_systems_prog.ParallelFile.Events.{
  read_size, or_junk, main_files, full_text, LogAnswers, Handling, inside,
}

-- The texts of the signals for which the file was opened and locked, or of all.
abbrev pub logged : List (Signal × ℕ × LogAnswers) → List ℕ
logged [] = []
logged ((signal, worker, a) ∷ es) =
    (if a.open_ok && a.lock_ok then full_text signal worker else []) ++ logged es

abbrev pub all_texts : List (Signal × ℕ × LogAnswers) → List ℕ
all_texts [] = []
all_texts ((signal, worker, a) ∷ es) = full_text signal worker ++ all_texts es

-- A process id in the range of pid_t.
abbrev pub ArePids : List (Signal × ℕ × LogAnswers) → Type 0
ArePids [] = Unit
ArePids ((signal, worker, a) ∷ es) = (worker < 2 ^ 31) × ArePids es

-- The texts in the order in which their handlers begin.
abbrev pub shown_texts : List Handling → List ℕ
shown_texts [] = []
shown_texts (h ∷ hs) = full_text h.signal h.worker ++ (all_texts (inside h) ++ shown_texts hs)

-- Those that are logged, in the order in which their handlers end.
abbrev pub logged_texts : List Handling → List ℕ
logged_texts [] = []
logged_texts (h ∷ hs) =
    logged (inside h)
    ++ ((if h.answers.open_ok && h.answers.lock_ok then full_text h.signal h.worker else [])
        ++ logged_texts hs)

abbrev pub HavePids : List Handling → Type 0
HavePids [] = Unit
HavePids (h ∷ hs) = (h.worker < 2 ^ 31) × ArePids (inside h) × HavePids hs

-- When three sizes are typed, each on a line, the files are made with those sizes.
pub main_files-typed :
    (n1 n2 n3 : ℕ) (junk : ℤ × ℤ × ℤ) (rest : List ℕ) (buffers : List ℕ × List ℕ × List ℕ)
    → main_files junk
        (show_nat n1 ++ (10 ∷ show_nat n2 ++ (10 ∷ show_nat n3 ++ (10 ∷ rest))))
        buffers
      ≡ (
        generate_binary_file (pos n1) buffers.0,
        generate_binary_file (pos n2) buffers.1,
        generate_binary_file (pos n3) buffers.2,
      )
unfolding main_files read_size or_junk
main_files-typed n1 n2 n3 junk rest buffers =
    let s3 = scan_stream_line n3 rest in
    let s2 = scan_stream_line n2 (show_nat n3 ++ (10 ∷ rest)) in
    let s1 = scan_stream_line n1 (show_nat n2 ++ (10 ∷ show_nat n3 ++ (10 ∷ rest))) in
    rw (s1.0, s2.1, s3.1) refl
