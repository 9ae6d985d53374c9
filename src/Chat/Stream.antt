-- ===== src/Chat/Stream.antt =====
-- Lab9: a stream socket as the programs rely on it. It is the kernel's, so it is a parameter: a record
-- of write and read with what they promise. A list gives such a stream.
use unx511_unix_systems_prog.Prelude.{
  ℕ, ◌≤◌, List, [], ◌++◌, length, take, drop, min, take-append-drop, length-take, ◌≡◌, refl, arith,
}

-- One direction of a connection; `unread s` are the bytes written and not read, in order. read gives at
-- most `max` bytes; `available` stands for how many have come in yet, and says no more than that
-- some choice is made.
pub record ByteStream : Type 1 where
  pub Stream : Type 0
  pub opened : Stream
  pub write : List ℕ → Stream → Stream
  pub read : (max available : ℕ) → Stream → List ℕ × Stream
  pub unread : Stream → List ℕ
  pub unread-opened : unread opened ≡ []
  pub unread-write : (bytes : List ℕ) (s : Stream) → unread (write bytes s) ≡ unread s ++ bytes
  pub read_in_order :
      (max available : ℕ) (s : Stream)
      → (read max available s).0 ++ unread (read max available s).1 ≡ unread s
  pub length-read : (max available : ℕ) (s : Stream) → length (read max available s).0 ≤ max

pub listed-length : (max available : ℕ) (s : List ℕ) → length (take (min max available) s) ≤ max
listed-length max available s = omega (arith, length-take {0} (min max available) s)

abbrev pub listed : ByteStream
listed = record {
  Stream = List ℕ;
  opened = [];
  write = λ bytes s. s ++ bytes;
  read = λ max available s. (take (min max available) s, drop (min max available) s);
  unread = λ s. s;
  unread-opened = refl;
  unread-write = λ bytes s. refl;
  read_in_order = λ max available s. take-append-drop (min max available) s;
  length-read = listed-length;
}
