-- ===== src/MemoryRelay.antt =====
-- Lab10/client1.cpp, client2.cpp, client3.cpp and client.h: three clients that pass a message round
-- in one shared memory segment, with no lock. Each read or write of the segment is a step of its
-- own; a schedule says which client makes the next one. The three are attached to one segment, which
-- a fresh shmget fills with zeros; Segment is how they come to one.
mod Exclusion
mod Handover
mod Termination
mod Segment
mod Identifiers
mod Sharing
mod Seen
mod Refinement
mod Examples
use unx511_unix_systems_prog.Prelude.{
  ℕ, zero, suc, ◌+◌, ◌*◌, ◌%◌, Bool, true, false, ◌&&◌, List, [], ◌∷◌, ◌++◌, ltb, ◌==◌,
  if◌then◌else◌,
}
use unx511_unix_systems_prog.Prelude.Int.{ℤ, pos}
use unx511_unix_systems_prog.Prelude.Bytes.{codes, show_nat}

abbrev pub num_messages : ℕ
num_messages = 30

-- struct Memory without packet_no, which nobody uses; `message` is the C string in the array.
pub record Memory : Type 0 where
  pub src_client_no : ℕ
  pub dest_client_no : ℕ
  pub message : List ℕ

-- Where a client stands. The first four are client 3's start, the others the loop's body in round i,
-- from its test on.
pub data Pc : Type 0 where
  start_src start_dest start_clear start_write : Pc
  poll print_src print_message set_src set_dest clear write : ℕ → Pc
  finished : Pc

pub record Local : Type 0 where
  pub pc : Pc
  pub is_running : Bool

-- What a client shows: the sender's number, a message.
pub data Output : Type 0 where
  from : ℕ → Output
  text : List ℕ → Output

-- 2+i%2, 1+2*(i%2), 1+i%2.
unfoldable pub dest_of : ℕ → ℕ → ℕ
dest_of n i = if n == 1 then 2 + i % 2 else (if n == 2 then 1 + 2 * (i % 2) else 1 + i % 2)

-- "This is message %d from client %d\n"
pub message_text : ℕ → ℕ → List ℕ
message_text k n =
    codes "This is message " ++ (show_nat k ++ (codes " from client " ++ (show_nat n ++ (10 ∷ []))))

abbrev pub at : Pc → Local → Local
at p l = record l { pc = p }

-- A step of client n that stands at the given place.
pub advance : ℕ → Pc → Local → Memory → Local × Memory × List Output
advance n start_src l m = (at start_dest l, record m { src_client_no = n }, [])
advance n start_dest l m = (at start_clear l, record m { dest_client_no = 1 }, [])
advance n start_clear l m = (at start_write l, record m { message = [] }, [])
advance n start_write l m = (at (poll 0) l, record m { message = message_text 0 n }, [])
advance n (poll i) l m = (
  at
      (if ltb i num_messages && l.is_running
        then (if m.dest_client_no == n then print_src i else poll (suc i))
        else finished)
      l,
  m,
  [],
)
advance n (print_src i) l m = (at (print_message i) l, m, from m.src_client_no ∷ [])
advance n (print_message i) l m = (at (set_src i) l, m, text m.message ∷ [])
advance n (set_src i) l m = (at (set_dest i) l, record m { src_client_no = n }, [])
advance n (set_dest i) l m = (at (clear i) l, record m { dest_client_no = dest_of n i }, [])
advance n (clear i) l m = (at (write i) l, record m { message = [] }, [])
advance n (write i) l m = (at (poll (suc i)) l, record m { message = message_text (i + 1) n }, [])
advance n finished l m = (l, m, [])

-- The segment and the clients by number.
pub record System : Type 0 where
  pub mem : Memory
  pub clients : ℕ → Local

abbrev pub update : (ℕ → Local) → ℕ → Local → ℕ → Local
update f n l k = if n == k then l else f k

-- Client n makes a step, or ctrl-C reaches it.
pub data Event : Type 0 where
  runs interrupts : ℕ → Event

pub step : Event → System → System × List Output
step (runs n) s =
    let (l, m, out) = advance n (s.clients n).pc (s.clients n) s.mem in
    (record { mem = m; clients = update s.clients n l }, out)
step (interrupts n) s =
    (record s { clients = update s.clients n (record (s.clients n) { is_running = false }) }, [])

pub run : List Event → System → System × List Output
run [] s = (s, [])
run (e ∷ es) s = let (s', out) = step e s in let (s'', out') = run es s' in (s'', out ++ out')

-- All three attached; the others are at their loops, client 3 before its first write.
pub initial : System
initial = record {
  mem = record { src_client_no = 0; dest_client_no = 0; message = [] };
  clients = λ n. record { pc = if n == 3 then start_src else poll 0; is_running = true };
}
