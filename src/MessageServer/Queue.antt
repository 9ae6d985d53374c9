-- ===== src/MessageServer/Queue.antt =====
-- Lab8: the message queue as its users rely on it. It is the kernel's, so it is a parameter: a record of
-- msgsnd and msgrcv with what their manual pages say of them. A list gives such a queue.
use unx511_unix_systems_prog.Prelude.{
  ℕ, true, false, Option, none, some, List, [], ◌∷◌, ◌++◌, ◌==◌, if◌then◌else◌, ◌≡◌, ◌≢◌, refl, ap,
  arith, Bool-cases, inl, inr,
}
use unx511_unix_systems_prog.MessageServer.{Message}
use unx511_unix_systems_prog.MessageServer.Delivery.{of_type, of_type-append}

-- What msgrcv for type t comes to: it waits while there is no message of this type, and takes the
-- first one there is. The other types keep theirs.
abbrev pub Receives : {Q : Type 0} → (ℕ → Q → List Message) → ℕ → Q → Option (Message × Q) → Type 0
Receives pending t q none = pending t q ≡ []
Receives pending t q (some (m, q')) =
    (pending t q ≡ m ∷ pending t q') × ((u : ℕ) → u ≢ t → pending u q' ≡ pending u q)

-- `pending t q` are the messages of type t in the order in which they were sent; msgrcv's `none` is a
-- call that waits.
pub record MessageQueue : Type 1 where
  pub Queue : Type 0
  pub fresh : Queue
  pub msgsnd : Message → Queue → Queue
  pub msgrcv : ℕ → Queue → Option (Message × Queue)
  pub pending : ℕ → Queue → List Message
  pub pending-fresh : (t : ℕ) → pending t fresh ≡ []
  pub pending-msgsnd :
      (t : ℕ) (m : Message) (q : Queue) → pending t (msgsnd m q) ≡ pending t q ++ of_type t (m ∷ [])
  pub msgrcv-Receives : (t : ℕ) (q : Queue) → Receives pending t q (msgrcv t q)

abbrev pub listed_msgsnd : Message → List Message → List Message
listed_msgsnd m ms = ms ++ (m ∷ [])

abbrev pub pass_over : Message → Option (Message × List Message) → Option (Message × List Message)
pass_over m none = none
pass_over m (some (n, ms)) = some (n, m ∷ ms)

abbrev pub listed_msgrcv : ℕ → List Message → Option (Message × List Message)
listed_msgrcv t [] = none
listed_msgrcv t (m ∷ ms) =
    let later = listed_msgrcv t ms in if m.mtype == t then some (m, ms) else pass_over m later

passed-Receives :
    (t : ℕ) (m : Message) (ms : List Message) (r : Option (Message × List Message))
    → (m.mtype == t) ≡ false
    → Receives of_type t ms r
    → Receives of_type t (m ∷ ms) (pass_over m r)
passed-Receives t m ms none h v = rw h v
passed-Receives t m ms (some (n, ns)) h (here, others) = (
  rw h here,
  λ u k. elim (Bool-cases (m.mtype == u)) [
    | inl q ↦ rw q (ap (◌∷◌ m) (others u k))
    | inr q ↦ rw q (others u k)
  ],
)

taken-Receives :
    (t : ℕ) (m : Message) (ms : List Message)
    → (m.mtype == t) ≡ true
    → Receives of_type t (m ∷ ms) (some (m, ms))
taken-Receives t m ms h = (rw h refl, λ u k. ground (arith, h, k))

pub listed-Receives : (t : ℕ) (ms : List Message) → Receives of_type t ms (listed_msgrcv t ms)
listed-Receives t [] = refl
listed-Receives t (m ∷ ms) = elim (Bool-cases (m.mtype == t)) [
  | inl q ↦ rw q (taken-Receives t m ms q)
  | inr q ↦ rw q (passed-Receives t m ms (listed_msgrcv t ms) q (listed-Receives t ms))
]

pub listed-msgsnd :
    (t : ℕ) (m : Message) (ms : List Message)
    → of_type t (listed_msgsnd m ms) ≡ of_type t ms ++ of_type t (m ∷ [])
listed-msgsnd t m ms = of_type-append t ms (m ∷ [])

-- One list for all types, from which msgrcv picks.
abbrev pub listed : MessageQueue
listed = record {
  Queue = List Message;
  fresh = [];
  msgsnd = listed_msgsnd;
  msgrcv = listed_msgrcv;
  pending = of_type;
  pending-fresh = λ t. refl;
  pending-msgsnd = listed-msgsnd;
  msgrcv-Receives = listed-Receives;
}
