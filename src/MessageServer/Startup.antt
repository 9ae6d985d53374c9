-- ===== src/MessageServer/Startup.antt =====
-- Lab8/server.cpp and client1.cpp to client3.cpp: the mains around their loops, and what the kernel
-- keeps of the message queue: the queue that the key leads to, and the next identifier.
use unx511_unix_systems_prog.Prelude.{ℕ, suc, Bool, Option, none, some, ◌==◌, if◌then◌else◌}
use unx511_unix_systems_prog.Prelude.Int.{ℤ, pos, negsuc}

pub record Queues : Type 0 where
  pub bound : Option ℕ
  pub next : ℕ

-- msgget with IPC_CREAT.
unfoldable pub get_queue : Option ℕ → Queues → ℕ × Queues
get_queue none q = (q.next, record { bound = some q.next; next = suc q.next })
get_queue (some id) q = (id, q)

-- msgctl with IPC_RMID.
unfoldable pub unbind : ℕ → Option ℕ → Option ℕ
unbind id none = none
unbind id (some b) = if id == b then none else some b

unfoldable pub remove : ℕ → Queues → Queues
remove id q = record q { bound = unbind id q.bound }

-- What the system answers: whether msgget and pthread_create succeed.
pub record Answers : Type 0 where
  pub get_ok : Bool
  pub thread_ok : Bool

-- A program that has a queue identifier, has none (-1), or has ended with a status.
pub data Program : Type 0 where
  has_queue : ℕ → Program
  no_queue : Program
  ended : ℤ → Program

-- The server's start: a failed msgget ends it; the result of pthread_create is not looked at.
unfoldable pub server_start : Answers → Queues → Program × Queues
server_start a q =
    if a.get_ok
    then (let (id, q') = get_queue q.bound q in (has_queue id, q'))
    else (ended (pos 1), q)

abbrev threaded : Bool → Program → Program
threaded thread_ok p = if thread_ok then p else ended (negsuc 0)

-- A client's start: the result of msgget is not looked at; without its thread it ends.
unfoldable pub client_start : Answers → Queues → Program × Queues
client_start a q =
    if a.get_ok
    then (let (id, q') = get_queue q.bound q in (threaded a.thread_ok (has_queue id), q'))
    else (threaded a.thread_ok no_queue, q)

-- What each program does after its loop.
unfoldable pub finish : Program → Queues → Queues
finish (has_queue id) q = remove id q
finish no_queue q = q
finish (ended status) q = q
