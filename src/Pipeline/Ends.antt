-- ===== src/Pipeline/Ends.antt =====
-- Lab7/Lab7.cpp: who holds the ends of the pipe.
use unx511_unix_systems_prog.Prelude.{ℕ, ◌≤◌, some, ◌≡◌, ◌≢◌, arith}
use unx511_unix_systems_prog.Pipeline.{
  read_end, write_end, Table, pipe, first_child, second_child, parent,
}

-- When both commands run, the first one's standard output is the pipe's write end and the second
-- one's standard input its read end, and no process of the three holds an end under any other
-- descriptor. This needs that the table had no end of this pipe before, and that pipe picked two
-- different descriptors behind 0 and 1.
pub pipe_ends :
    (r w k : ℕ) (t : Table)
    → 2 ≤ r
    → 2 ≤ w
    → r ≢ w
    → ((n : ℕ) → (t n ≢ some read_end) × (t n ≢ some write_end))
    → let open_pipe = pipe r w t in
      (first_child r w open_pipe 1 ≡ some write_end)
      × (second_child r w open_pipe 0 ≡ some read_end)
      × (first_child r w open_pipe k ≡ some write_end → k ≡ 1)
      × (first_child r w open_pipe k ≢ some read_end)
      × (second_child r w open_pipe k ≡ some read_end → k ≡ 0)
      × (second_child r w open_pipe k ≢ some write_end)
      × (parent r w open_pipe k ≢ some read_end)
      × (parent r w open_pipe k ≢ some write_end)
unfolding first_child second_child parent
pipe_ends r w k t hr hw h clean =
    let here = clean k in
    (
      ground arith,
      ground arith,
      (λ e. ground arith),
      (λ e. ground arith),
      (λ e. ground arith),
      (λ e. ground arith),
      (λ e. ground arith),
      λ e. ground arith,
    )
