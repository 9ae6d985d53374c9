-- ===== src/Pipeline/Program.antt =====
-- Lab7/Lab7.cpp: main as a whole, with the calls that can fail.
use unx511_unix_systems_prog.Prelude.{
  ℕ, ◌<◌, Bool, true, Option, none, some, List, [], ◌∷◌, if◌then◌else◌, length, take, lt→ltb, ◌≡◌,
  refl,
}
use unx511_unix_systems_prog.Pipeline.{
  max_len, Outcome, usage, overflow, commands, run_copies, parse_arguments, Table, pipe,
  first_child, second_child, parent,
}
use unx511_unix_systems_prog.Pipeline.Words.{words, tokenize-words}

-- A child that has not been made, that runs a command with its descriptors, or that has exited as execvp
-- failed.
pub data Process : Type 0 where
  not_made exited : Process
  execs : List (List ℕ) → Table → Process

-- What becomes of main: the exit before the pipe, a write past an array, a pipe that fails, or
-- the two children and the parent's descriptors while it waits.
pub data Run : Type 0 where
  refused overflowed no_pipe : Run
  started : Process → Process → Table → Run

-- What the system answers: pipe's two descriptors, whether the forks succeed, and for which commands
-- execvp does.
pub record Answers : Type 0 where
  pub pipe_ends : Option (ℕ × ℕ)
  pub fork1_ok : Bool
  pub fork2_ok : Bool
  pub can_exec : List (List ℕ) → Bool

child : Bool → Bool → List (List ℕ) → Table → Process
child fork_ok exec_ok command t =
    if fork_ok then (if exec_ok then execs command t else exited) else not_made

join : Answers → List (List ℕ) → List (List ℕ) → Option (ℕ × ℕ) → Table → Run
join a c1 c2 none t = no_pipe
join a c1 c2 (some (r, w)) t =
    let joined = pipe r w t in
    started (child a.fork1_ok (a.can_exec c1) c1 (first_child r w joined))
      (child a.fork2_ok (a.can_exec c2) c2 (second_child r w joined)) (parent r w joined)

run_outcome : Answers → Table → Outcome → Run
run_outcome a t usage = refused
run_outcome a t overflow = overflowed
run_outcome a t (commands c1 c2) = join a c1 c2 a.pipe_ends t

-- main, on the arguments behind argv[0].
pub main : Answers → List (List ℕ) → Table → Run
main a arguments t = run_outcome a t (parse_arguments arguments)

-- Two texts of less than 32 characters, and calls that succeed: the children run the first words of the
-- texts, at most three each, with the two ends of the pipe in the places that `first_child` and
-- `second_child` give them.
pub main_starts :
    (a : Answers) (s1 s2 : List ℕ) (r w : ℕ) (t : Table)
    → length s1 < max_len
    → length s2 < max_len
    → a.pipe_ends ≡ some (r, w)
    → a.fork1_ok ≡ true
    → a.fork2_ok ≡ true
    → a.can_exec (take 3 (words s1)) ≡ true
    → a.can_exec (take 3 (words s2)) ≡ true
    → main a (s1 ∷ s2 ∷ []) t
      ≡ started
          (execs (take 3 (words s1)) (first_child r w (pipe r w t)))
          (execs (take 3 (words s2)) (second_child r w (pipe r w t)))
          (parent r w (pipe r w t))
unfolding main run_outcome join child parse_arguments run_copies
main_starts a s1 s2 r w t h1 h2 p f1 f2 e1 e2 =
    rw
      (
        lt→ltb (length s1) max_len h1,
        lt→ltb (length s2) max_len h2,
        tokenize-words 3 s1,
        tokenize-words 3 s2,
        p,
        f1,
        f2,
        e1,
        e2,
      )
      refl
