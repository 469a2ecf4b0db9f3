-- ===== src/ProductRx/Points.antt =====
-- The stabilization points of an event of native/src/rf_product_rx.cpp show those of the product.
use ams_gra_mel_bridge.Prelude.{
  ℕ, ◌^◌, ◌≡◌, refl, ◌<◌, ℤ, pos, negsuc, inl, inr, some, List, [], ◌∷◌, arith, Option-cases,
}
use ams_gra_mel_bridge.ProductRx.Pointing.{
  UtcTime, Pointing, ecef, lla, platform_relative, face_relative, baseline_relative, PointingV1,
  ecef_v1, lla_v1, platform_relative_v1, face_relative_v1, baseline_relative_v1, copy_time, timed,
  copy_pointing, copy_points,
}

-- The time of a pointing is kept, and its fraction is at least 0 and less than a second.
abbrev pub IsTime : UtcTime → UtcTime → Type 0
IsTime t u =
    (u ≡ t) × (fraction : ℕ) × (t.fractional_femtoseconds ≡ pos fraction) × (fraction < 10 ^ 15)

-- A pointing of an event is of the provider's kind, with its numbers at their places; a location in
-- ECEF and every velocity have three.
abbrev pub Shows : {R : Type 0} → Pointing R → PointingV1 R → Type 0
Shows (ecef location velocity t) (ecef_v1 x y z vx vy vz u) =
    (location ≡ x ∷ y ∷ z ∷ []) × (velocity ≡ vx ∷ vy ∷ vz ∷ []) × IsTime t u
Shows (lla latitude longitude altitude velocity t) (lla_v1 lat long alt north east down u) =
    (lat ≡ latitude)
    × (long ≡ longitude)
    × (alt ≡ altitude)
    × (velocity ≡ north ∷ east ∷ down ∷ [])
    × IsTime t u
Shows (platform_relative azimuth elevation) (platform_relative_v1 a e) =
    (a ≡ azimuth) × (e ≡ elevation)
Shows (face_relative azimuth elevation) (face_relative_v1 a e) = (a ≡ azimuth) × (e ≡ elevation)
Shows (baseline_relative conic) (baseline_relative_v1 c) = c ≡ conic
Shows _ _ = ⊥

abbrev pub AllPoints : {R : Type 0} → List (Pointing R) → List (PointingV1 R) → Type 0
AllPoints [] [] = Unit
AllPoints (p ∷ ps) (q ∷ qs) = Shows p q × AllPoints ps qs
AllPoints _ _ = ⊥

copy_time-IsTime : (t u : UtcTime) → copy_time t ≡ some u → IsTime t u
unfolding copy_time
copy_time-IsTime t u e = go t.fractional_femtoseconds refl
  where
    go : (z : ℤ) → t.fractional_femtoseconds ≡ z → IsTime t u
    go (pos fraction) z = (ground arith, fraction, z, ground arith)
    go (negsuc n) z = absurd (ground arith)

-- A pointing with a time, whose other numbers are copied.
timed-Shows :
    {R : Type 0} (p : Pointing R) (make : UtcTime → PointingV1 R) (t : UtcTime) (q : PointingV1 R)
    → ((u : UtcTime) → IsTime t u → Shows p (make u))
    → timed make (copy_time t) ≡ some q
    → Shows p q
timed-Shows p make t q shows e = elim (Option-cases (copy_time t)) [
  | inl bad ↦ absurd (ground arith)
  | inr (u, got) ↦
      let same : q ≡ make u = ground arith in rw same (shows u (copy_time-IsTime t u got))
]

copy_pointing-Shows :
    {R : Type 0} (p : Pointing R) (q : PointingV1 R) → copy_pointing p ≡ some q → Shows p q
unfolding copy_pointing
copy_pointing-Shows (ecef (x ∷ y ∷ z ∷ []) (vx ∷ vy ∷ vz ∷ []) t) q e =
    let p = ecef (x ∷ y ∷ z ∷ []) (vx ∷ vy ∷ vz ∷ []) t in
    timed-Shows p (ecef_v1 x y z vx vy vz) t q (λ u v. (refl, refl, v)) e
copy_pointing-Shows (lla latitude longitude altitude (north ∷ east ∷ down ∷ []) t) q e =
    let p = lla latitude longitude altitude (north ∷ east ∷ down ∷ []) t in
    timed-Shows p (lla_v1 latitude longitude altitude north east down) t q
      (λ u v. (refl, refl, refl, refl, v)) e
copy_pointing-Shows (platform_relative azimuth elevation) q e =
    let same : q ≡ platform_relative_v1 azimuth elevation = ground arith in rw same (refl, refl)
copy_pointing-Shows (face_relative azimuth elevation) q e =
    let same : q ≡ face_relative_v1 azimuth elevation = ground arith in rw same (refl, refl)
copy_pointing-Shows (baseline_relative conic) q e =
    let same : q ≡ baseline_relative_v1 conic = ground arith in rw same refl
copy_pointing-Shows (ecef [] v t) q e = absurd (ground arith)
copy_pointing-Shows (ecef (x ∷ []) v t) q e = absurd (ground arith)
copy_pointing-Shows (ecef (x ∷ y ∷ []) v t) q e = absurd (ground arith)
copy_pointing-Shows (ecef (x ∷ y ∷ z ∷ w ∷ l) v t) q e = absurd (ground arith)
copy_pointing-Shows (ecef (x ∷ y ∷ z ∷ []) [] t) q e = absurd (ground arith)
copy_pointing-Shows (ecef (x ∷ y ∷ z ∷ []) (a ∷ []) t) q e = absurd (ground arith)
copy_pointing-Shows (ecef (x ∷ y ∷ z ∷ []) (a ∷ b ∷ []) t) q e = absurd (ground arith)
copy_pointing-Shows (ecef (x ∷ y ∷ z ∷ []) (a ∷ b ∷ c ∷ d ∷ v) t) q e = absurd (ground arith)
copy_pointing-Shows (lla latitude longitude altitude [] t) q e = absurd (ground arith)
copy_pointing-Shows (lla latitude longitude altitude (a ∷ []) t) q e = absurd (ground arith)
copy_pointing-Shows (lla latitude longitude altitude (a ∷ b ∷ []) t) q e = absurd (ground arith)
copy_pointing-Shows (lla latitude longitude altitude (a ∷ b ∷ c ∷ d ∷ v) t) q e =
    absurd (ground arith)

pub copy_points-AllPoints :
    {R : Type 0} (ps : List (Pointing R)) (qs : List (PointingV1 R))
    → copy_points ps ≡ some qs
    → AllPoints ps qs
unfolding copy_points
copy_points-AllPoints [] [] e = tt
copy_points-AllPoints [] (q ∷ qs) e = cc
copy_points-AllPoints (p ∷ ps) qs e = elim (Option-cases (copy_pointing p)) [
  | inl bad ↦ absurd (ground arith)
  | inr (q, got) ↦ elim (Option-cases (copy_points ps)) [
    | inl bad ↦ absurd (ground arith)
    | inr (more, got_more) ↦
        let whole : qs ≡ q ∷ more = ground arith in
        rw whole (copy_pointing-Shows p q got, copy_points-AllPoints ps more got_more)
  ]
]
