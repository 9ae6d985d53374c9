-- ===== src/Travel/Laps.antt =====
-- Assignment3/client/TravelSimulator.cpp: the track and the fuel after the laps.
use unx511_unix_systems_prog.Prelude.{
  ℕ, zero, suc, ◌%◌, ◌∙◌, subst, ◌+◌, ◌-◌, ◌*◌, ◌≤◌, ◌≡◌, arith, min,
}
use unx511_unix_systems_prog.Travel.{
  Automobile, Fleet, tank, set_fuel_efficiency, empty_fuel, add_fuel, drive, lap, for_each,
  city_distance, highway_distance, leg, next_track, drive_laps,
}

abbrev pub IsTrack : ℕ → Type 0
IsTrack t = (1 ≤ t) × (t ≤ 5)

-- The fuel of a car at the end of a lap with the given efficiencies.
abbrev pub lap_fuel : ℕ → ℕ → ℕ → ℕ
lap_fuel city highway t =
    min (tank - city * city_distance t + tank) tank - highway * highway_distance t

-- One car: emptied, filled, driven, filled up, driven.
two_legs :
    (e1 e2 d1 d2 : ℕ) (c : Automobile)
    → (leg e2 d2 (add_fuel tank (leg e1 d1 (add_fuel tank (empty_fuel c)).0).0).0).0.fuel_in_tank
      ≡ min (tank - e1 * d1 + tank) tank - e2 * d2
unfolding add_fuel drive empty_fuel set_fuel_efficiency
two_legs e1 e2 d1 d2 c = ground arith

-- The four cars' fuel at the end of a lap on track t.
abbrev pub HasLapFuel : ℕ → Fleet → Type 0
HasLapFuel t s =
    (s.car1.fuel_in_tank ≡ lap_fuel 820 620 t)
    × (s.car2.fuel_in_tank ≡ lap_fuel 780 580 t)
    × (s.car3.fuel_in_tank ≡ lap_fuel 1060 750 t)
    × (s.car4.fuel_in_tank ≡ lap_fuel 1729 1250 t)

lap-HasLapFuel : (t : ℕ) (s : Fleet) → HasLapFuel t (lap t s).0
unfolding lap for_each
lap-HasLapFuel t s = (
  two_legs 820 620 _ _ s.car1,
  two_legs 780 580 _ _ s.car2,
  two_legs 1060 750 _ _ s.car3,
  two_legs 1729 1250 _ _ s.car4,
)

-- The track after n laps from track t: two further each time, on a circle of five.
abbrev pub track_after : ℕ → ℕ → ℕ
track_after n t = (t - 1 + 2 * n) % 5 + 1

track_after-suc : (n t : ℕ) → 1 ≤ t → track_after n (next_track t) ≡ track_after (suc n) t
unfolding next_track
track_after-suc n t h = omega arith

next_track-IsTrack : (t : ℕ) → IsTrack (next_track t)
unfolding next_track
next_track-IsTrack t = omega arith

next_track_first : (t : ℕ) → IsTrack t → next_track t ≡ track_after 1 t
unfolding next_track
next_track_first t h = omega arith

track_after_none : (t : ℕ) → IsTrack t → t ≡ track_after 0 t
track_after_none t h = omega arith

-- After any number of laps from a track from 1 to 5, the track is as many times two further on the
-- circle of the five tracks, and each car holds what two full tanks, filled up before each leg, leave
-- on the last lap's track, whatever it held in the beginning.
pub drive_laps_fuel :
    (n t : ℕ) (s : Fleet)
    → IsTrack t
    → let (t', s', _) = drive_laps (suc n) t s in
      (t' ≡ track_after (suc n) t) × HasLapFuel (track_after n t) s'
unfolding drive_laps
drive_laps_fuel zero t s h = (
  next_track_first t h,
  subst (λ u. HasLapFuel u (lap t s).0) (track_after_none t h) (lap-HasLapFuel t s),
)
drive_laps_fuel (suc n) t s h =
    let (track, fuel) = drive_laps_fuel n (next_track t) (lap t s).0 (next_track-IsTrack t) in
    (
      track ∙ track_after-suc (suc n) t h.0,
      subst (λ u. HasLapFuel u (drive_laps (suc n) (next_track t) (lap t s).0).1)
          (track_after-suc n t h.0) fuel,
    )
