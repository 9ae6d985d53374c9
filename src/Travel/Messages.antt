-- ===== src/Travel/Messages.antt =====
-- Assignment3/client/Automobile.cpp: whether the messages fit their buffer.
use unx511_unix_systems_prog.Prelude.{
  ℕ, ◌+◌, ◌<◌, [], ◌∷◌, ◌++◌, length, ◌≡◌, refl, arith, ap, length-append,
}
use mathlib.Core.List.{Memᴰ}
use unx511_unix_systems_prog.Logger.{warning}
use unx511_unix_systems_prog.Prelude.{mem-append_left, mem-append_right}
use unx511_unix_systems_prog.Prelude.Bytes.{codes, show_nat}
use unx511_unix_systems_prog.Travel.Laps.{IsTrack}
use unx511_unix_systems_prog.Travel.{
  Automobile, Fleet, Line, tank, message_len, set_fuel_efficiency, empty_fuel, add_fuel, drive, leg,
  lap, for_each, full_message, car_text, city_distance,
}

-- The characters of a car's attributes.
abbrev pub name_length : Automobile → ℕ
name_length c = length c.colour + length (show_nat c.year) + length c.make + length c.model

length-car_text : (c : Automobile) → length (car_text c) ≡ name_length c + 7
unfolding car_text
length-car_text c = omega (
  arith,
  length-append {0} c.colour (32 ∷ show_nat c.year ++ (32 ∷ c.make ++ (32 ∷ c.model))),
  length-append {0} (show_nat c.year) (32 ∷ c.make ++ (32 ∷ c.model)),
  length-append {0} c.make (32 ∷ c.model),
)

length-full_message : (c : Automobile) → length (full_message c) ≡ name_length c + 47
unfolding full_message
length-full_message c = omega (
  arith,
  length-car_text c,
  length-append {0} (car_text c) (codes " is full of gas. Discarding the rest..." ++ (10 ∷ [])),
)

-- sprintf writes the message and a zero.
abbrev pub Overflows : Line → Type 0
Overflows l = message_len < length l.message + 1

-- The car on its second filling in a lap.
abbrev after_city : ℕ → Automobile → Automobile
after_city t c = (leg 820 (city_distance t) (add_fuel tank (empty_fuel c)).0).0

second_filling :
    (t : ℕ) (c : Automobile)
    → IsTrack t
    → let c' = after_city t c in
      ((add_fuel tank c').1 ≡ record { level = warning; message = full_message c' } ∷ [])
      × (name_length c' ≡ name_length c)
unfolding add_fuel empty_fuel drive set_fuel_efficiency
second_filling t c h = ground arith

year_length : length (show_nat 2013) ≡ 4
unfolding show_nat
year_length = refl

first_car_name :
    (c : Automobile)
    → c.colour ≡ codes "grey"
    → c.year ≡ 2013
    → c.make ≡ codes "Toyota"
    → c.model ≡ codes "Corolla"
    → name_length c ≡ 21
first_car_name c e1 e2 e3 e4 = omega (
  arith,
  ap length e1,
  ap (λ (y : ℕ). length (show_nat y)) e2,
  year_length,
  ap length e3,
  ap length e4,
)

-- On every track the lap of a car with the attributes of the simulator's first car fills a tank that
-- is not empty: it logs a message that does not fit the buffer of 64 bytes.
pub lap-Overflows :
    (t : ℕ) (s : Fleet)
    → IsTrack t
    → s.car1.colour ≡ codes "grey"
    → s.car1.year ≡ 2013
    → s.car1.make ≡ codes "Toyota"
    → s.car1.model ≡ codes "Corolla"
    → (l : Line) × Memᴰ l (lap t s).1 × Overflows l
unfolding lap for_each
lap-Overflows t s h e1 e2 e3 e4 =
    let (lines, name) = second_filling t s.car1 h in
    let long = first_car_name s.car1 e1 e2 e3 e4 in
    let line : Line = record { level = warning; message = full_message (after_city t s.car1) } in
    let inside : Memᴰ line (add_fuel tank (after_city t s.car1)).1 = rw lines (Memᴰ.head refl) in
    (
      line,
      search (mem-append_right, Memᴰ.tail, mem-append_left, inside) depth 8,
      omega (arith, length-full_message (after_city t s.car1), name, long),
    )
