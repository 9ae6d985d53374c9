-- ===== src/InterfaceMonitor/Connecting.antt =====
-- assignment2/src/intfMonitor.cpp: how long it tries to connect, and when it reports its link.
use unx511_unix_systems_prog.Prelude.{
  ℕ, zero, suc, ◌+◌, ◌<◌, Bool, true, false, some, List, [], ◌∷◌, ◌++◌, replicate, ◌≡◌, ◌↔◌, refl,
  ap, ◌∙◌, arith, All, ◌≢◌,
}
use unx511_unix_systems_prog.Prelude.Bytes.{codes, bytes_eq_iff}
use unx511_unix_systems_prog.Prelude.Setup.{local, connected, slept}
use unx511_unix_systems_prog.NetworkMonitor.{link_down}
use unx511_unix_systems_prog.NetworkMonitor.Startup.{socket_path}
use unx511_unix_systems_prog.InterfaceMonitor.{watching, wrote, step, Event, session}
use unx511_unix_systems_prog.InterfaceMonitor.Startup.{
  Files, read_file, until_newline, base, operstate, round, connect_loop, Answers, start, ran, main,
}

connect_from :
    (f k n fd : ℕ) (connects : ℕ → Bool)
    → ((i : ℕ) → i < n → connects (k + i) ≡ false)
    → connects (k + n) ≡ true
    → n < f
    → connect_loop f k connects fd
      ≡ some (replicate n slept ++ (connected fd (local socket_path) ∷ []))
unfolding connect_loop
connect_from zero k n fd connects h e l = absurd (omega arith)
connect_from (suc f) k zero fd connects h e l =
    let here : connects k ≡ true = ap connects (omega arith) ∙ e in rw here refl
connect_from (suc f) k (suc n) fd connects h e l =
    let here : connects k ≡ false = ap connects (omega arith) ∙ h 0 (omega arith) in
    let rest =
      connect_from f (suc k) n fd connects
        (λ i l'. ap connects (omega arith) ∙ h (suc i) (omega arith))
        (ap connects (omega arith) ∙ e) (omega arith) in
    rw (here, rest) refl

-- A monitor with an argument and a socket whose first n attempts to connect fail and whose next one
-- succeeds: with fuel for the attempts it sleeps n times, connects to the network monitor's
-- path, and then runs its session.
pub main_connects :
    (f n fd : ℕ) (a : Answers) (name : List ℕ) (connects : ℕ → Bool) (es : List Event)
    → a.argument ≡ some name
    → a.socket ≡ some fd
    → ((i : ℕ) → i < n → connects i ≡ false)
    → connects n ≡ true
    → n < f
    → main f a connects es
      ≡ some (
          ran
            (replicate n slept ++ (connected fd (local socket_path) ∷ []))
            (session es).0
            (session es).1)
unfolding main start
main_connects f n fd a name connects es ha hs h e l =
    rw
      (
        ha,
        hs,
        connect_from f 0 n fd connects (λ i l. ap connects (omega arith) ∙ h i l)
            (ap connects (omega arith) ∙ e) l,
      )
      refl

until_newline-line :
    (line rest : List ℕ) → All (λ c. c ≢ 10) line → until_newline (line ++ (10 ∷ rest)) ≡ line
unfolding until_newline
until_newline-line [] rest h = refl
until_newline-line (c ∷ line) rest h = ground (arith, until_newline-line line rest h.1, h.0)

operstate_lem :
    (files : Files) (name line rest : List ℕ)
    → All (λ c. c ≢ 10) line
    → files (codes "/sys/class/net/" ++ (name ++ codes "/operstate")) ≡ some (line ++ (10 ∷ rest))
    → operstate files name ≡ line
unfolding operstate base read_file
operstate_lem files name line rest h e = ap read_file e ∙ until_newline-line line rest h

-- A round of a monitor that watches reports its link exactly if the first line of the interface's
-- operstate is not "up".
pub round_reports :
    (files : Files) (name line rest : List ℕ)
    → All (λ c. c ≢ 10) line
    → files (codes "/sys/class/net/" ++ (name ++ codes "/operstate")) ≡ some (line ++ (10 ∷ rest))
    → ((step watching (round files name)).1 ≡ wrote link_down ∷ []) ↔ (line ≢ codes "up")
unfolding step round
round_reports files name line rest h e =
    let same = bytes_eq_iff line (codes "up") in
    rw (operstate_lem files name line rest h e) (ground (arith, same))
