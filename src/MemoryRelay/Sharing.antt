-- ===== src/MemoryRelay/Sharing.antt =====
-- Lab10: which clients share a segment.
use unx511_unix_systems_prog.Prelude.{
  put, put_intro, put_self, put_other, ℕ, Bool, true, false, Option, none, some, List, [], ◌∷◌,
  ◌==◌, ◌≡◌, ◌≢◌, ◌⊎◌, refl, sym, ap, subst, ◌∙◌, arith, inl, inr,
}
use unx511_unix_systems_prog.MemoryRelay.{Pc, finished, Local, advance}
use unx511_unix_systems_prog.MemoryRelay.Segment.{
  Phase, gets, returned, refused, attaches, removes, runs, World, set_phase, create, loaded, unbind,
  remove, access, moves, sig_handler, Move, calls, interrupts, step, run, fresh,
}
use unx511_unix_systems_prog.MemoryRelay.Identifiers.{
  uses, IsValid, moves-IsValid, run-IsValid, not_next,
}

abbrev SameAs : Option ℕ → Option ℕ → Type 0
SameAs bound none = Unit
SameAs bound (some id) = bound ≡ some id

-- Some client has returned, or all use the segment of the key.
abbrev Shares : World → Type 0
Shares w = ((n : ℕ) × (w.phases n ≡ returned)) ⊎ ((m : ℕ) → SameAs w.ipc.bound (uses (w.phases m)))

-- A client that has returned makes no step any more.
still_returned :
    (k n : ℕ) (p : Phase) (w : World)
    → w.phases n ≡ p
    → w.phases k ≡ returned
    → p ≢ returned
    → (q : Phase) → put n q w.phases k ≡ returned
still_returned k n p w e h other q =
    put_other n k q w.phases (λ same. other (sym e ∙ ap w.phases same ∙ h)) ∙ h

phase-Shares :
    (n : ℕ) (p q : Phase) (w : World)
    → w.phases n ≡ p
    → p ≢ returned
    → SameAs w.ipc.bound (uses q)
    → Shares w
    → Shares (set_phase n q w)
phase-Shares n p q w e h same (inl (k, r)) = inl (k, still_returned k n p w e r h q)
phase-Shares n p q w e h same (inr all) =
    inr (put_intro (λ x. SameAs w.ipc.bound (uses x)) n q w.phases same all)

SameAs-none : (bound o : Option ℕ) → SameAs none o → SameAs bound o
SameAs-none bound none h = tt
SameAs-none bound (some id) h = absurd cc

create-Shares :
    (n : ℕ) (o : Option ℕ) (w : World)
    → w.ipc.bound ≡ o
    → w.phases n ≡ gets
    → Shares w
    → Shares (create n o w)
unfolding create
create-Shares n (some id) w e g h = phase-Shares n gets (attaches id) w g (λ q. cc) e h
create-Shares n none w e g (inl (k, r)) =
    inl (k, still_returned k n gets w g r (λ q. cc) (attaches w.ipc.next))
create-Shares n none w e g (inr all) = inr (
    put_intro (λ x. SameAs (some w.ipc.next) (uses x)) n (attaches w.ipc.next) w.phases refl
      (λ m.
        SameAs-none (some w.ipc.next) (uses (w.phases m))
          (subst (λ b. SameAs b (uses (w.phases m))) e (all m))))

-- What client n uses, as far as it shares.
used_by :
    (n : ℕ) (p : Phase) (w : World)
    → w.phases n ≡ p
    → Shares w
    → ((k : ℕ) × (w.phases k ≡ returned)) ⊎ SameAs w.ipc.bound (uses p)
used_by n p w e (inl r) = inl r
used_by n p w e (inr all) = inr (subst (λ x. SameAs w.ipc.bound (uses x)) e (all n))

-- Going on with the same segment.
again-Shares :
    (n : ℕ) (p q : Phase) (w : World)
    → w.phases n ≡ p
    → p ≢ returned
    → uses q ≡ uses p
    → Shares w
    → Shares (set_phase n q w)
again-Shares n p q w e other same (inl (k, r)) = inl (k, still_returned k n p w e r other q)
again-Shares n p q w e other same (inr all) =
    phase-Shares n p q w e other
      (subst (SameAs w.ipc.bound) (sym same) (subst (λ x. SameAs w.ipc.bound (uses x)) e (all n)))
      (inr all)

access-Shares :
    (n id : ℕ) (p : Pc) (l k : Local) (w : World)
    → w.phases n ≡ runs id k
    → Shares w
    → Shares (access n id p l w)
unfolding access
access-Shares n id finished l k w e h = again-Shares n (runs id k) (removes id) w e (λ q. cc) refl h
access-Shares n id p l k w e h =
    again-Shares n (runs id k) (runs id (advance n p l (w.segments id)).0) w e (λ q. cc) refl h

moves-Shares :
    (n : ℕ) (granted : Bool) (p : Phase) (w : World)
    → w.phases n ≡ p
    → Shares w
    → Shares (moves n granted p w)
unfolding moves remove
moves-Shares n true gets w e h = create-Shares n w.ipc.bound w refl e h
moves-Shares n false gets w e h = phase-Shares n gets refused w e (λ q. cc) tt h
moves-Shares n true (attaches id) w e h =
    again-Shares n (attaches id) (runs id (loaded n (w.is_running n))) w e (λ q. cc) refl h
moves-Shares n false (attaches id) w e h = phase-Shares n (attaches id) refused w e (λ q. cc) tt h
moves-Shares n granted (runs id l) w e h = access-Shares n id l.pc l l w e h
moves-Shares n granted (removes id) w e h = inl (n, put_self n returned w.phases)
moves-Shares n granted returned w e h = h
moves-Shares n granted refused w e h = h

sig_handler-Shares :
    (n : ℕ) (p : Phase) (w : World) → w.phases n ≡ p → Shares w → Shares (sig_handler n p w)
unfolding sig_handler
sig_handler-Shares n (runs id l) w e h =
    again-Shares n (runs id l) (runs id (record l { is_running = false }))
      (record w { is_running = put n false w.is_running }) e (λ q. cc) refl h
sig_handler-Shares n p w e h = h

step-Shares : (e : Move) (w : World) → Shares w → Shares (step e w)
unfolding step
step-Shares (calls n granted) w h = moves-Shares n granted (w.phases n) w refl h
step-Shares (interrupts n) w h = sig_handler-Shares n (w.phases n) w refl h

run-Shares : (es : List Move) (w : World) → Shares w → Shares (run es w)
unfolding run
run-Shares [] w h = h
run-Shares (e ∷ es) w h = run-Shares es (step e w) (step-Shares e w h)

shared_by_all :
    (w : World)
    → ((n : ℕ) → w.phases n ≢ returned)
    → Shares w
    → (m : ℕ) → SameAs w.ipc.bound (uses (w.phases m))
shared_by_all w h (inl (k, r)) = absurd (h k r)
shared_by_all w h (inr all) = all

same_segment :
    (b o o' : Option ℕ) (i j : ℕ) → SameAs b o → SameAs b o' → o ≡ some i → o' ≡ some j → i ≡ j
same_segment b none o' i j h h' e e' = absurd cc
same_segment b (some k) none i j h h' e e' = absurd cc
same_segment b (some k) (some l) i j h h' e e' = cc

-- Under every order of the clients' steps and whatever calls are refused: as long as no client has
-- returned, the clients that use a segment use the same one.
pub run_shares :
    (es : List Move) (a b i j : ℕ)
    → ((n : ℕ) → (run es fresh).phases n ≢ returned)
    → uses ((run es fresh).phases a) ≡ some i
    → uses ((run es fresh).phases b) ≡ some j
    → i ≡ j
run_shares es a b i j h e e' =
    let all = shared_by_all (run es fresh) h (run-Shares es fresh (inr (λ m. tt))) in
    same_segment _ _ _ i j (all a) (all b) e e'

moves_removes :
    (a id : ℕ) (granted : Bool) (w : World) → moves a granted (removes id) w ≡ remove a id w
unfolding moves
moves_removes a id granted w = refl

-- shmget when the key leads nowhere.
alone_after_create :
    (b : ℕ) (w : World)
    → w.ipc.bound ≡ none
    → w.phases b ≡ gets
    → IsValid w
    → let w' = moves b true (w.phases b) w in
      (w'.phases b ≡ attaches w.ipc.next) × ((m : ℕ) → m ≢ b → uses (w'.phases m) ≢ some w.ipc.next)
unfolding moves create
alone_after_create b w e g v =
    rw (g, e)
      (
        put_self b (attaches w.ipc.next) w.phases,
        λ m other.
            (let same = put_other b m (attaches w.ipc.next) w.phases (λ q. other (sym q)) in
              subst (λ q. uses q ≢ some w.ipc.next) (sym same)
                (not_next w.ipc.next (uses (w.phases m)) (v.0 m))),
      )

unbound_after_remove :
    (a id : ℕ) (w : World) → w.ipc.bound ≡ some id → (remove a id w).ipc.bound ≡ none
unfolding remove unbind
unbound_after_remove a id w e = let same : (id == id) ≡ true = ground arith in rw (e, same) refl

-- The first client to return takes the segment with it: if the next call after its shmctl is another
-- client's shmget, that client gets a new segment, which at that moment no other client uses.
pub late_client_is_alone :
    (es : List Move) (a b id : ℕ) (granted : Bool)
    → ((n : ℕ) → (run es fresh).phases n ≢ returned)
    → (run es fresh).phases a ≡ removes id
    → (run es fresh).phases b ≡ gets
    → let w = run (calls a granted ∷ calls b true ∷ []) (run es fresh) in
      (w.phases b ≡ attaches (run es fresh).ipc.next)
      × ((m : ℕ) → m ≢ b → uses (w.phases m) ≢ some (run es fresh).ipc.next)
unfolding run step remove
late_client_is_alone es a b id granted h e g =
    let w = run es fresh in
    let v = run-IsValid es fresh ((λ m. tt), tt) in
    let all = shared_by_all w h (run-Shares es fresh (inr (λ m. tt))) a in
    let bound = subst (λ p. SameAs w.ipc.bound (uses p)) e all in
    let apart : a ≢ b =
      λ same. (let clash : removes id ≡ gets = sym e ∙ ap w.phases same ∙ g in cc) in
    let removed : moves a granted (w.phases a) w ≡ remove a id w =
      ap (λ p. moves a granted p w) e ∙ moves_removes a id granted w in
    subst
      (λ u.
        let w' = moves b true (u.phases b) u in
        (w'.phases b ≡ attaches w.ipc.next)
        × ((m : ℕ) → m ≢ b → uses (w'.phases m) ≢ some w.ipc.next))
      (sym removed)
      (alone_after_create b (remove a id w) (unbound_after_remove a id w bound)
        (put_other a b returned w.phases apart ∙ g)
        (subst IsValid removed (moves-IsValid a granted (w.phases a) w refl v)))
