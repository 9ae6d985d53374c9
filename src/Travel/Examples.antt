-- ===== src/Travel/Examples.antt =====
-- Assignment3/client/TravelSimulator.cpp: laps of the simulator's cars, and the theorems at them.
use unx511_unix_systems_prog.Prelude.{[], ◌∷◌, ◌++◌, ◌≡◌, refl, arith}
use unx511_unix_systems_prog.Prelude.Bytes.{codes, show_nat}
use unx511_unix_systems_prog.Travel.{
  Automobile, automobile, Fleet, full_message, car_text, drive_laps, next_track, fleet, Line, lap,
}
use unx511_unix_systems_prog.Travel.Messages.{Overflows, lap-Overflows}
use mathlib.Core.List.{Memᴰ}
use unx511_unix_systems_prog.Travel.Laps.{drive_laps_fuel}

abbrev corolla : Automobile
corolla = automobile (codes "Toyota") (codes "Corolla") (codes "grey") 2013 0

abbrev cars : Fleet
cars = fleet 0

first_car : cars.car1 ≡ corolla
unfolding fleet
first_car = refl

corolla_message :
    full_message corolla
    ≡ codes "The grey 2013 Toyota Corolla is full of gas. Discarding the rest..." ++ (10 ∷ [])
unfolding full_message car_text show_nat
corolla_message = refl

two_laps : (drive_laps 2 1 cars).0 ≡ 5
unfolding drive_laps next_track
two_laps = refl

drive_laps_fuel_example : (drive_laps 6 2 cars).0 ≡ 4
drive_laps_fuel_example = (drive_laps_fuel 5 2 cars (omega arith, omega arith)).0

lap-Overflows_example : (l : Line) × Memᴰ l (lap 1 cars).1 × Overflows l
unfolding fleet
lap-Overflows_example = lap-Overflows 1 cars (omega arith, omega arith) refl refl refl refl
