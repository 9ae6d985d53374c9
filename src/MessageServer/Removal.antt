-- ===== src/MessageServer/Removal.antt =====
-- Lab8: who is on which message queue.
use unx511_unix_systems_prog.Prelude.{ℕ, ◌<◌, true, some, ◌==◌, ◌≡◌, ◌≢◌, refl, arith}
use unx511_unix_systems_prog.MessageServer.Startup.{
  Queues, get_queue, unbind, remove, Answers, has_queue, server_start, client_start, finish,
}

-- While a queue is there, the server and the clients that start get that queue. When one of them has
-- finished, the next client that starts is on another queue, although the others still have theirs.
pub finish_parts_programs :
    (a : Answers) (q : Queues) (id : ℕ)
    → a.get_ok ≡ true
    → a.thread_ok ≡ true
    → q.bound ≡ some id
    → id < q.next
    → (server_start a q ≡ (has_queue id, q))
      × (client_start a q ≡ (has_queue id, q))
      × ((client_start a (finish (has_queue id) q)).0 ≡ has_queue q.next)
      × (q.next ≢ id)
unfolding server_start client_start get_queue finish remove unbind
finish_parts_programs a q id g t b l =
    let same : (id == id) ≡ true = ground arith in
    (rw (g, b) refl, rw (g, t, b) refl, rw (g, t, b, same) refl, λ e. omega (arith, e, l))
