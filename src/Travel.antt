-- ===== src/Travel.antt =====
-- Assignment3/client/Automobile.cpp, Automobile.h and TravelSimulator.cpp: four cars that drive
-- laps on several tracks and log what happens to their fuel. The doubles are exact decimals here:
-- litres in units of 1/10000, efficiencies in 1/100 litre per 100 km, distances in km, so that
-- fuelEfficiency/100 * distance is their product. A car's message is the text that sprintf writes; the
-- buffer for it has 64 bytes, and what a program does after it has written past them is not modelled.
mod Laps
mod Messages
mod Program
mod Examples
use unx511_unix_systems_prog.Prelude.{
  ℕ, zero, suc, ◌+◌, ◌-◌, ◌*◌, ◌%◌, Bool, true, false, List, [], ◌∷◌, ◌++◌, ltb, if◌then◌else◌,
  length,
}
use unx511_unix_systems_prog.Prelude.Bytes.{codes, show_nat}
use unx511_unix_systems_prog.Logger.{LogLevel, debug, warning, error}

pub record Automobile : Type 0 where
  pub make : List ℕ
  pub model : List ℕ
  pub colour : List ℕ
  pub year : ℕ
  pub fuel_efficiency : ℕ
  pub fuel_in_tank : ℕ

-- The constructor; fuelEfficiency is not set there, and is read only after setFuelEfficiency.
abbrev pub automobile : List ℕ → List ℕ → List ℕ → ℕ → ℕ → Automobile
automobile make model colour year junk = record {
  make = make;
  model = model;
  colour = colour;
  year = year;
  fuel_efficiency = junk;
  fuel_in_tank = 0;
}

-- A call of Log: the level and the message.
pub record Line : Type 0 where
  pub level : LogLevel
  pub message : List ℕ

-- 50 litres.
abbrev pub tank : ℕ
tank = 500000

-- sizeof(message) in addFuel and drive.
abbrev pub message_len : ℕ
message_len = 64

-- "The %s %d %s %s"
car_text : Automobile → List ℕ
car_text c = codes "The " ++ (c.colour ++ (32 ∷ show_nat c.year ++ (32 ∷ c.make ++ (32 ∷ c.model))))

pub full_message : Automobile → List ℕ
full_message c = car_text c ++ (codes " is full of gas. Discarding the rest..." ++ (10 ∷ []))

pub dry_message : Automobile → List ℕ
dry_message c = car_text c ++ (codes " has no gas left in the tank" ++ (10 ∷ []))

pub set_fuel_efficiency : ℕ → Automobile → Automobile
set_fuel_efficiency efficiency c = record c { fuel_efficiency = efficiency }

pub empty_fuel : Automobile → Automobile
empty_fuel c = record c { fuel_in_tank = 0 }

pub add_fuel : ℕ → Automobile → Automobile × List Line
add_fuel liters c =
    if ltb tank (c.fuel_in_tank + liters)
    then (
      record c { fuel_in_tank = tank },
      record { level = warning; message = full_message c } ∷ [],
    )
    else (record c { fuel_in_tank = c.fuel_in_tank + liters }, [])

pub drive : ℕ → Automobile → Automobile × List Line
drive distance c =
    let fuel_consumed = c.fuel_efficiency * distance in
    if ltb c.fuel_in_tank fuel_consumed
    then (record c { fuel_in_tank = 0 }, record { level = error; message = dry_message c } ∷ [])
    else (record c { fuel_in_tank = c.fuel_in_tank - fuel_consumed }, [])

-- The simulator's cars, in the order of their names.
pub record Fleet : Type 0 where
  pub car1 : Automobile
  pub car2 : Automobile
  pub car3 : Automobile
  pub car4 : Automobile

abbrev pub quietly : (Automobile → Automobile) → Automobile → Automobile × List Line
quietly f c = (f c, [])

-- One statement for each car, one after the other.
for_each : (f1 f2 f3 f4 : Automobile → Automobile × List Line) → Fleet → Fleet × List Line
for_each f1 f2 f3 f4 s =
    let (c1, l1) = f1 s.car1 in
    let (c2, l2) = f2 s.car2 in
    let (c3, l3) = f3 s.car3 in
    let (c4, l4) = f4 s.car4 in
    (record { car1 = c1; car2 = c2; car3 = c3; car4 = c4 }, l1 ++ (l2 ++ (l3 ++ l4)))

-- setFuelEfficiency, then drive.
abbrev pub leg : ℕ → ℕ → Automobile → Automobile × List Line
leg efficiency distance c = drive distance (set_fuel_efficiency efficiency c)

abbrev pub say : List ℕ → List Line
say text = record { level = debug; message = text } ∷ []

abbrev pub city_distance : ℕ → ℕ
city_distance track = track * 100

-- 500 - cityDistance, which is not negative on tracks 1 to 5.
abbrev pub highway_distance : ℕ → ℕ
highway_distance track = 500 - city_distance track

-- The body of the simulator's loop on one track.
pub lap : ℕ → Fleet → Fleet × List Line
lap track s0 =
    let city = city_distance track in
    let highway = highway_distance track in
    let (s1, l1) =
      for_each (quietly empty_fuel) (quietly empty_fuel) (quietly empty_fuel) (quietly empty_fuel)
        s0 in
    let (s2, l2) = for_each (add_fuel tank) (add_fuel tank) (add_fuel tank) (add_fuel tank) s1 in
    let (s3, l3) = for_each (leg 820 city) (leg 780 city) (leg 1060 city) (leg 1729 city) s2 in
    let (s4, l4) = for_each (add_fuel tank) (add_fuel tank) (add_fuel tank) (add_fuel tank) s3 in
    let (s5, l5) =
      for_each (leg 620 highway) (leg 580 highway) (leg 750 highway) (leg 1250 highway) s4 in
    (
      s5,
      l1
          ++ (l2
              ++ (say (codes "Added the fuel")
                  ++ (l3
                      ++ (say (codes "Set the efficiency")
                          ++ (l4
                              ++ (say (codes "Added the fuel again")
                                  ++ (l5 ++ say (codes "Drove the cars")))))))),
    )

pub next_track : ℕ → ℕ
next_track track = (track + 1) % 5 + 1

-- The loop for a number of laps: `isRunning` is cleared from outside.
pub drive_laps : ℕ → ℕ → Fleet → ℕ × Fleet × List Line
drive_laps zero track s = (track, s, [])
drive_laps (suc n) track s =
    let (s', l) = lap track s in
    let (track', s'', l') = drive_laps n (next_track track) s' in (track', s'', l ++ l')

-- What the simulator builds, with what the cars' efficiencies hold before they are set.
pub fleet : ℕ → Fleet
fleet junk = record {
  car1 = automobile (codes "Toyota") (codes "Corolla") (codes "grey") 2013 junk;
  car2 = automobile (codes "Honda") (codes "Civic") (codes "red") 2012 junk;
  car3 = automobile (codes "Chevrolet") (codes "Impala") (codes "blue") 2008 junk;
  car4 = automobile (codes "Cadillac") (codes "Escalade") (codes "black") 2016 junk;
}
