-- ===== src/MessageServer/System/Typing.antt =====
-- Lab8: what kinds of messages there are on the queue and in the programs.
use unx511_unix_systems_prog.Prelude.{
  ℕ, false, List, [], ◌∷◌, ◌==◌, All, All-append, ◌≡◌, ◌≢◌, refl, subst, arith, inl, inr,
  Bool-cases, ==_iff,
}
use unx511_unix_systems_prog.Prelude.Bytes.{codes, has_prefix}
use unx511_unix_systems_prog.Prelude.Bytes.{show_nat_starts}
use unx511_unix_systems_prog.MessageServer.{Message}
use unx511_unix_systems_prog.MessageServer.Clients.{IsClient}
use unx511_unix_systems_prog.MessageServer.Delivery.{of_type}
use unx511_unix_systems_prog.MessageServer.Queue.{MessageQueue}
use unx511_unix_systems_prog.MessageServer.System.{System, text_of, start, send_all}
use unx511_unix_systems_prog.MessageServer.System.Ways.{pending-send_all}

-- What a client writes: from one of the three to another, and nothing that looks like "Quit".
pub record IsRequest (m : Message) : Type 0 where
  pub source : IsClient m.source
  pub dest : IsClient m.dest
  pub other : m.dest ≢ m.source
  pub no_quit : has_prefix (codes "Quit") m.buf ≡ false

-- What another client has written to client t.
abbrev pub IsMail : ℕ → Message → Type 0
IsMail t m = IsRequest m × (m.dest ≡ t)

pub text_of-no_quit : (n pid : ℕ) → has_prefix (codes "Quit") (text_of n pid) ≡ false
unfolding text_of
text_of-no_quit n pid = let (c, r, e, digit) = show_nat_starts pid in rw e (ground (arith, digit))

pub All-of_type :
    (t : ℕ) (P : Message → Type 0) (ms : List Message)
    → All (λ m. m.mtype ≡ t → P m) ms
    → All P (of_type t ms)
All-of_type t P [] h = tt
All-of_type t P (m ∷ ms) h = elim (Bool-cases (m.mtype == t)) [
  | inl q ↦ rw q (h.0 ((==_iff m.mtype t).0 q), All-of_type t P ms h.1)
  | inr q ↦ rw q (All-of_type t P ms h.1)
]

module _ (k : MessageQueue) where
  pub All-sent :
      (t : ℕ) (P : Message → Type 0) (ms : List Message) (q : k.Queue)
      → All P (k.pending t q)
      → All (λ m. m.mtype ≡ t → P m) ms
      → All P (k.pending t (send_all k ms q))
  All-sent t P ms q h h' =
      rw (pending-send_all k t ms q) (All-append P (k.pending t q) _ h (All-of_type t P ms h'))

  -- The message that msgrcv takes, and what it leaves.
  pub All-taken :
      (t : ℕ) (P : Message → Type 0) (m : Message) (q q' : k.Queue)
      → k.pending t q ≡ m ∷ k.pending t q'
      → All P (k.pending t q)
      → P m × All P (k.pending t q')
  All-taken t P m q q' e h = subst (All P) e h

  -- The clients keep their numbers; what waits for the server, or in it, are requests; what waits for
  -- a client, or in it, is mail to it.
  pub record IsTyped (s : System k.Queue) : Type 0 where
    pub numbers : (t : ℕ) → (s.clients t).number ≡ t
    pub requests : All IsRequest (k.pending 4 s.queue)
    pub accepted : All IsRequest s.server.message_queue
    pub letters : (t : ℕ) → IsClient t → All (IsMail t) (k.pending t s.queue)
    pub mail : (t : ℕ) → IsClient t → All (IsMail t) (s.clients t).queue

  pub start-IsTyped : IsTyped (start k)
  start-IsTyped = record {
    numbers = λ t. refl;
    requests = rw (k.pending-fresh 4) tt;
    accepted = tt;
    letters = λ t h. rw (k.pending-fresh t) tt;
    mail = λ t h. tt;
  }
