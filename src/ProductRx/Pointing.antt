-- ===== src/ProductRx/Pointing.antt =====
-- native/src/rf_product_rx.cpp, `copy_pointing`: a pointing of the provider in the C layout. The
-- numbers that are only copied are of a type of the caller's choice.
use ams_gra_mel_bridge.Prelude.{
  ◌^◌, Option, none, some, List, [], ◌∷◌, ltb, if◌then◌else◌, ℤ, pos, negsuc,
}

-- Seconds and femtoseconds, both `std::int64_t`.
pub record UtcTime : Type 0 where
  pub seconds : ℤ
  pub fractional_femtoseconds : ℤ

-- `rfmel::PointingType`; a location and a velocity are vectors, whose length the code checks.
pub data Pointing (R : Type 0) : Type 0 where
  ecef : List R → List R → UtcTime → Pointing R
  lla : R → R → R → List R → UtcTime → Pointing R
  platform_relative face_relative : R → R → Pointing R
  baseline_relative : R → Pointing R

-- `ams_mel_rf_pointing_v1`, by its `kind`.
pub data PointingV1 (R : Type 0) : Type 0 where
  ecef_v1 : R → R → R → R → R → R → UtcTime → PointingV1 R
  lla_v1 : R → R → R → R → R → R → UtcTime → PointingV1 R
  platform_relative_v1 face_relative_v1 : R → R → PointingV1 R
  baseline_relative_v1 : R → PointingV1 R

-- `copy_time`: the fraction is at least 0 and less than a second.
unfoldable pub copy_time : UtcTime → Option UtcTime
copy_time t = elim t.fractional_femtoseconds [
  | pos fraction ↦ if ltb fraction (10 ^ 15) then some t else none
  | negsuc n ↦ none
]

module _ {R : Type 0} where
  abbrev pub timed : (UtcTime → PointingV1 R) → Option UtcTime → Option (PointingV1 R)
  timed make none = none
  timed make (some t) = some (make t)

  unfoldable pub copy_pointing : Pointing R → Option (PointingV1 R)
  unfolding copy_time
  copy_pointing (ecef (x ∷ y ∷ z ∷ []) (vx ∷ vy ∷ vz ∷ []) t) =
      timed (ecef_v1 x y z vx vy vz) (copy_time t)
  copy_pointing (ecef _ _ t) = none
  copy_pointing (lla latitude longitude altitude (north ∷ east ∷ down ∷ []) t) =
      timed (lla_v1 latitude longitude altitude north east down) (copy_time t)
  copy_pointing (lla _ _ _ _ t) = none
  copy_pointing (platform_relative azimuth elevation) =
      some (platform_relative_v1 azimuth elevation)
  copy_pointing (face_relative azimuth elevation) = some (face_relative_v1 azimuth elevation)
  copy_pointing (baseline_relative conic) = some (baseline_relative_v1 conic)

  -- The loop of `build_event` over the stabilization points.
  unfoldable pub copy_points : List (Pointing R) → Option (List (PointingV1 R))
  unfolding copy_pointing
  copy_points [] = some []
  copy_points (point ∷ rest) =
      let copied = copy_points rest in
      elim (copy_pointing point) [
        | none ↦ none
        | some p ↦ elim copied [ none ↦ none | some more ↦ some (p ∷ more) ]
      ]
