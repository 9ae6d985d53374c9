-- ===== src/MemoryRelay/Segment.antt =====
-- Lab10/client1.cpp to client3.cpp: a client from shmget to shmctl, and what the kernel keeps for them:
-- the segment that the key leads to, and what each segment holds. Ctrl-C may reach a client at any
-- time after its sigaction.
use unx511_unix_systems_prog.Prelude.{
  put, ℕ, suc, Bool, true, false, Option, none, some, List, [], ◌∷◌, ◌==◌, if◌then◌else◌,
}
use unx511_unix_systems_prog.MemoryRelay.{Memory, Pc, start_src, poll, finished, Local, advance}

-- The segment that MEMNAME's key leads to, and the next identifier.
pub record Ipc : Type 0 where
  pub bound : Option ℕ
  pub next : ℕ

-- Before shmget; before shmat; attached; before shmctl; returned with 0 or with -1.
pub data Phase : Type 0 where
  gets returned refused : Phase
  attaches removes : ℕ → Phase
  runs : ℕ → Local → Phase

pub record World : Type 0 where
  pub ipc : Ipc
  pub segments : ℕ → Memory
  pub phases : ℕ → Phase
  pub is_running : ℕ → Bool

abbrev pub zeroed : Memory
zeroed = record { src_client_no = 0; dest_client_no = 0; message = [] }

abbrev pub set_phase : ℕ → Phase → World → World
set_phase n p w = record w { phases = put n p w.phases }

-- shmget with IPC_CREAT: the segment of the key, or a new one, filled with zeros.
unfoldable pub create : ℕ → Option ℕ → World → World
create n (some id) w = set_phase n (attaches id) w
create n none w = set_phase n (attaches w.ipc.next) (record w {
  ipc = record { bound = some w.ipc.next; next = suc w.ipc.next };
  segments = put w.ipc.next zeroed w.segments;
})

-- Client 3 writes before its loop.
abbrev pub loaded : ℕ → Bool → Local
loaded n running = record { pc = if n == 3 then start_src else poll 0; is_running = running }

unfoldable pub unbind : ℕ → Option ℕ → Option ℕ
unbind id none = none
unbind id (some b) = if id == b then none else some b

-- shmctl with IPC_RMID: the key leads to the segment no more; who is attached stays so.
unfoldable pub remove : ℕ → ℕ → World → World
remove n id w =
    set_phase n returned (record w { ipc = record w.ipc { bound = unbind id w.ipc.bound } })

-- An access to the segment; at the end of the loop shmdt.
unfoldable pub access : ℕ → ℕ → Pc → Local → World → World
access n id finished l w = set_phase n (removes id) w
access n id p l w =
    let (l', m, out) = advance n p l (w.segments id) in
    set_phase n (runs id l') (record w { segments = put id m w.segments })

-- The next call or access of client n.
unfoldable pub moves : ℕ → Bool → Phase → World → World
moves n granted gets w = if granted then create n w.ipc.bound w else set_phase n refused w
moves n granted (attaches id) w =
    if granted then set_phase n (runs id (loaded n (w.is_running n))) w else set_phase n refused w
moves n granted (runs id l) w = access n id l.pc l w
moves n granted (removes id) w = remove n id w
moves n granted returned w = w
moves n granted refused w = w

-- sigHandler in client n: is_running is false from here on, in the loop too if client n is there.
unfoldable pub sig_handler : ℕ → Phase → World → World
sig_handler n (runs id l) w =
    set_phase n (runs id (record l { is_running = false }))
      (record w { is_running = put n false w.is_running })
sig_handler n p w = record w { is_running = put n false w.is_running }

-- Client n goes on, and the system grants its call or refuses it; or ctrl-C reaches it.
pub data Move : Type 0 where
  calls : ℕ → Bool → Move
  interrupts : ℕ → Move

unfoldable pub step : Move → World → World
step (calls n granted) w = moves n granted (w.phases n) w
step (interrupts n) w = sig_handler n (w.phases n) w

unfoldable pub run : List Move → World → World
run [] w = w
run (e ∷ es) w = run es (step e w)

-- No client has called shmget, no segment is there.
abbrev pub fresh : World
fresh = record {
  ipc = record { bound = none; next = 0 };
  segments = λ id. zeroed;
  phases = λ n. gets;
  is_running = λ n. true;
}
