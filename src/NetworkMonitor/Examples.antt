-- ===== src/NetworkMonitor/Examples.antt =====
-- assignment2/src/networkMonitor.cpp: a run of the network monitor, and its theorems at it.
use unx511_unix_systems_prog.Prelude.{
  ℕ, true, ◌==◌, if◌then◌else◌, All, refl, arith, none, some, List, [], ◌∷◌, replicate, ◌≡◌,
}
use unx511_unix_systems_prog.Prelude.Int.{pos, negsuc}
use unx511_unix_systems_prog.NetworkMonitor.{Arrival, Effect, ready, monitoring}
use unx511_unix_systems_prog.NetworkMonitor.Cleanup.{signalled, closes}
use unx511_unix_systems_prog.NetworkMonitor.Startup
use unx511_unix_systems_prog.NetworkMonitor.Serving.{typed, IsName, main_gives_back}
use unx511_unix_systems_prog.Prelude.Bytes.{codes}
use unx511_unix_systems_prog.Prelude.Input.{input}

abbrev zeros : List ℕ
zeros = replicate 128 0

abbrev arrival : Arrival
arrival = record { client_fd = some 4; junk = zeros; first_read = ready; second_read = monitoring }

abbrev failed_arrival : Arrival
failed_arrival = record arrival { client_fd = none }

-- Two interfaces, of which the second one's fork and accept fail.
world : Startup.World
world = record {
  answers = record { socket = some 3; bind_ok = true };
  pids = λ i. if i == 0 then pos 100 else negsuc 0;
  arrivals = λ i. if i == 0 then arrival else failed_arrival;
  rounds = [];
}

names : List (List ℕ)
names = codes "ens33" ∷ codes "lo" ∷ []

names-IsName : All IsName names
unfolding names
names-IsName = ((refl, (refl, (refl, (refl, (refl, tt))))), ((refl, (refl, tt)), tt))

main_gives_back_example :
    (es : List Effect) × ((Startup.main world (pos 7) (input (typed names))).1
      ≡ Startup.ran names es)
    × (signalled es ≡ pos 100 ∷ negsuc 0 ∷ [])
    × (closes es ≡ 4 ∷ 3 ∷ [])
unfolding world names
main_gives_back_example = main_gives_back world (pos 7) names 3 names-IsName (omega arith) refl refl
