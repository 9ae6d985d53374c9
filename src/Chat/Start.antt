-- ===== src/Chat/Start.antt =====
-- Lab9/client.cpp: which thread of the client comes first.
use unx511_unix_systems_prog.Prelude.{
  ℕ, ◌+◌, ◌≤◌, true, false, Option, none, some, List, [], ◌∷◌, ◌++◌, ◌≡◌, refl, arith, subst,
  length, length-append, ◌<◌, if◌then◌else◌,
}
use unx511_unix_systems_prog.Prelude.Bytes.{codes, c_string, overwrite}
use unx511_unix_systems_prog.Chat.{
  Client, client, Move, sets_running, receives, tests, writes, receive_round, take_bytes, move,
  moves,
}

-- The receive thread has ended, main goes round its loop.
abbrev Deaf : Client → Type 0
Deaf c = (c.is_running ≡ true) × (c.started ≡ true) × (c.receiving ≡ false)

move-Deaf : (m : Move) (c : Client) → Deaf c → Deaf (move m c).0
unfolding move
move-Deaf sets_running c h = ground arith
move-Deaf (receives r) c h = ground arith
move-Deaf tests c h = ground arith
move-Deaf (writes text) c h = ground arith

moves-Deaf : (ms : List Move) (c : Client) → Deaf c → Deaf (moves ms c).0
unfolding moves
moves-Deaf [] c h = h
moves-Deaf (m ∷ ms) c h = moves-Deaf ms (move m c).0 (move-Deaf m c h)

-- A client that has been told to quit.
abbrev Stopped : Client → Type 0
Stopped c = (c.is_running ≡ false) × (c.started ≡ true)

-- The write that main is on its way to.
abbrev on_its_way : Client → ℕ
on_its_way c = if c.writing then 1 else 0

late_move :
    (m : Move) (c : Client)
    → Stopped c
    → let (c', out) = move m c in Stopped c' × (length out + on_its_way c' ≤ on_its_way c)
unfolding move receive_round
late_move sets_running c h = ground arith
late_move (receives none) c h = ground arith
late_move (receives (some bytes)) c h = ground arith
late_move tests c h = ground arith
late_move (writes text) c h = ground arith

late_moves :
    (ms : List Move) (c : Client)
    → Stopped c
    → Stopped (moves ms c).0 × (length (moves ms c).1 ≤ on_its_way c)
unfolding moves
late_moves [] c h = (h, omega arith)
late_moves (m ∷ ms) c h =
    let (still, one) = late_move m c h in
    let (after, rest) = late_moves ms (move m c).0 still in
    (after, omega (arith, length-append (move m c).1 (moves ms (move m c).0).1))

quit_text :
    (buf : List ℕ)
    → 4 < length buf
    → c_string (overwrite (codes "Quit" ++ (0 ∷ [])) buf) ≡ codes "Quit"
quit_text (a ∷ b ∷ c ∷ d ∷ e ∷ junk) h = refl
quit_text (a ∷ b ∷ c ∷ d ∷ []) h = absurd (omega arith)
quit_text (a ∷ b ∷ c ∷ []) h = absurd (omega arith)
quit_text (a ∷ b ∷ []) h = absurd (omega arith)
quit_text (a ∷ []) h = absurd (omega arith)
quit_text [] h = absurd (omega arith)

quit_stops :
    (c : Client)
    → c.started ≡ true
    → c.is_running ≡ true
    → c.receiving ≡ true
    → 4 < length c.buf
    → let (c', out) = move (receives (some (codes "Quit" ++ (0 ∷ [])))) c in
      Stopped c' × (c'.writing ≡ c.writing) × (out ≡ [])
unfolding move receive_round take_bytes
quit_stops c started running receiving h =
    rw (receiving, running, quit_text c.buf h) ((refl, started), refl, refl)

early_Deaf :
    (r : Option (List ℕ)) (junk : List ℕ)
    → Deaf (move sets_running (move (receives r) (client junk)).0).0
unfolding move receive_round
early_Deaf none junk = (refl, refl, refl)
early_Deaf (some bytes) junk = (refl, refl, refl)

-- A client whose main is in its loop, whose receive thread is in its own and whose buffer has at least
-- five bytes: a "Quit" with its zero that is read to the front of the buffer stops it for good. After
-- it main writes at most the one text for which it has already made its test, and no other. If the
-- receive thread makes its first test before main has set is_running, the thread ends at once: then
-- the client is still running after any moves, "Quit" among them or not.
pub quits_or_deaf :
    (c : Client) (junk : List ℕ) (ms : List Move) (r : Option (List ℕ))
    → c.started ≡ true
    → c.is_running ≡ true
    → c.receiving ≡ true
    → 4 < length c.buf
    → let quit = receives (some (codes "Quit" ++ (0 ∷ []))) in
      (length (moves (quit ∷ ms) c).1 ≤ (if c.writing then 1 else 0))
      × ((moves (quit ∷ ms) c).0.is_running ≡ false)
      × ((moves (receives r ∷ sets_running ∷ ms) (client junk)).0.is_running ≡ true)
unfolding moves
quits_or_deaf c junk ms r started running receiving h =
    let (stops, same, silent) = quit_stops c started running receiving h in
    let c' = (move (receives (some (codes "Quit" ++ (0 ∷ [])))) c).0 in
    let (stopped, few) = late_moves ms c' stops in
    (
      rw silent (subst (λ b. length (moves ms c').1 ≤ (if b then 1 else 0)) same few),
      stopped.0,
      (moves-Deaf ms _ (early_Deaf r junk)).0,
    )
