-- ===== src/Nuc/Copy.antt =====
-- native/src/ir_nuc.cpp, `copy_nuc_temp_data`: the provider's temperature points, copied into the
-- caller's representation, and how a reader of that representation gets them back.
use ams_gra_mel_bridge.Prelude.{
  ℕ, ◌>>=◌, ◌==◌, ◌≤◌, ◌≢◌, Option, none, some, List, [], ◌∷◌, ltb, if◌then◌else◌, ℤ, ◌≡◌, refl,
  ◌⊎◌, sym, ◌∙◌, arith, inl, inr, Option-cases, All,
}

-- `TempPoint::PixelValue`, a `std::variant` of three widths; it holds no value after an exception.
pub data PixelValue : Type 0 where
  valueless : PixelValue
  uint8 uint16 uint32 : ℕ → PixelValue

-- `ams_mel_ir_pixel_value_v1`
pub record CopiedPixel : Type 0 where
  pub kind : ℕ
  pub value : ℕ

-- `ams_mel_ir_band_info_v1`, and what the getters of the provider's band return. A double is copied as
-- it is, and so a parameter.
pub record Band (Double : Type 0) : Type 0 where
  pub band_type : ℕ
  pub min_wavelength : Double
  pub max_wavelength : Double

-- The provider's `TempPoint`.
pub record TempPoint (Double : Type 0) : Type 0 where
  pub timestamp : ℤ
  pub frame_band : Band Double
  pub pixel_value : PixelValue
  pub temperature : Double
  pub point_type : ℕ

-- `ams_mel_ir_temp_point_v1`
pub record CopiedPoint (Double : Type 0) : Type 0 where
  pub timestamp_ns : ℤ
  pub frame_band : Band Double
  pub pixel_value : CopiedPixel
  pub temperature_k : Double
  pub point_type : ℕ

some-inj : {A : Type 0} {x y : A} → some x ≡ some y → x ≡ y
some-inj e = cc

abbrev pub band_uv_vacuum : ℕ
band_uv_vacuum = 14

abbrev pub temp_point_other : ℕ
temp_point_other = 2

unfoldable pub copy_pixel : PixelValue → Option CopiedPixel
copy_pixel valueless = none
copy_pixel (uint8 v) = some (record { kind = 1; value = v })
copy_pixel (uint16 v) = some (record { kind = 2; value = v })
copy_pixel (uint32 v) = some (record { kind = 3; value = v })

module _ {Double : Type 0} where
  -- One turn of the loop.
  unfoldable pub copy_point : TempPoint Double → Option (CopiedPoint Double)
  unfolding copy_pixel
  copy_point p =
      if ltb band_uv_vacuum p.frame_band.band_type then none else elim (copy_pixel p.pixel_value) [
        | none ↦ none
        | some pixel ↦
            if ltb temp_point_other p.point_type
            then none
            else some (record {
              timestamp_ns = p.timestamp;
              frame_band = p.frame_band;
              pixel_value = pixel;
              temperature_k = p.temperature;
              point_type = p.point_type;
            })
      ]

  unfoldable pub copy_points : List (TempPoint Double) → Option (List (CopiedPoint Double))
  unfolding copy_point
  copy_points [] = some []
  copy_points (p ∷ ps) = do c ← copy_point p; cs ← copy_points ps; some (c ∷ cs)

  -- `none` is the null pointer. An allocation that fails throws, and then there is no event.
  unfoldable pub copy_nuc_temp_data :
      Option (List (TempPoint Double)) → Option (List (CopiedPoint Double))
  copy_nuc_temp_data none = none
  copy_nuc_temp_data (some source) = copy_points source

  abbrev pub IsCopyable : TempPoint Double → Type 0
  IsCopyable p =
      (p.frame_band.band_type ≤ band_uv_vacuum)
      × (p.pixel_value ≢ valueless)
      × (p.point_type ≤ temp_point_other)

-- What a reader makes of a pixel: the kind is authoritative.
unfoldable pub read_pixel : CopiedPixel → Option PixelValue
read_pixel p =
    if p.kind == 1
    then some (uint8 p.value)
    else if p.kind == 2
    then some (uint16 p.value)
    else if p.kind == 3
    then some (uint32 p.value)
    else none

module _ {Double : Type 0} where
  abbrev pub read_point : CopiedPoint Double → Option (TempPoint Double)
  read_point c = do
    pixel ← read_pixel c.pixel_value
    some (record {
      timestamp = c.timestamp_ns;
      frame_band = c.frame_band;
      pixel_value = pixel;
      temperature = c.temperature_k;
      point_type = c.point_type;
    })

  unfoldable pub read_points : List (CopiedPoint Double) → Option (List (TempPoint Double))
  read_points [] = some []
  read_points (c ∷ cs) = do p ← read_point c; ps ← read_points cs; some (p ∷ ps)

  copy_point-IsCopyable :
      (p : TempPoint Double) (c : CopiedPoint Double)
      → copy_point p ≡ some c
      → IsCopyable p × (read_point c ≡ some p)
  unfolding copy_point copy_pixel read_pixel
  copy_point-IsCopyable p c e = ground arith

  IsCopyable-copy_point :
      (p : TempPoint Double) → IsCopyable p → (c : CopiedPoint Double) × (copy_point p ≡ some c)
  unfolding copy_point copy_pixel
  IsCopyable-copy_point p (b, v, t) = elim (Option-cases (copy_point p)) [
    | inr (c, e) ↦ (c, e)
    | inl e ↦ absurd (ground arith)
  ]

  copied-read :
      (ps : List (TempPoint Double)) (cs : List (CopiedPoint Double))
      → copy_points ps ≡ some cs
      → All IsCopyable ps × (read_points cs ≡ some ps)
  unfolding copy_points read_points
  copied-read [] cs e = (tt, ground arith)
  copied-read (p ∷ ps) cs e = elim (Option-cases (copy_point p)) [
    | inl e' ↦ absurd (ground arith)
    | inr (c, e') ↦ elim (Option-cases (copy_points ps)) [
      | inl f ↦ absurd (ground arith)
      | inr (cs', f) ↦
          let (v, r) = copy_point-IsCopyable p c e' in
          let (w, r') = copied-read ps cs' f in
          let computed : copy_points (p ∷ ps) ≡ some (c ∷ cs') = rw (e', f) refl in
          let same : c ∷ cs' ≡ cs = some-inj (sym computed ∙ e) in
          ((v, w), rw (sym same, r, r') refl)
    ]
  ]

  IsCopyable-copied :
      (ps : List (TempPoint Double))
      → All IsCopyable ps
      → (cs : List (CopiedPoint Double)) × (copy_points ps ≡ some cs)
  unfolding copy_points
  IsCopyable-copied [] v = ([], refl)
  IsCopyable-copied (p ∷ ps) (v, vs) =
      let (c, e) = IsCopyable-copy_point p v in
      let (cs, e') = IsCopyable-copied ps vs in (c ∷ cs, rw (e, e') refl)

  -- An event is made exactly of the points that all have a band and a point type that the C
  -- interface knows, and a value of their pixel, and it is then a faithful copy: who reads it by
  -- its kinds gets the provider's points back, each of them, in their order, with the width of each
  -- pixel. If one point is not of this kind, no event is made.
  pub copy-read :
      (ps : List (TempPoint Double))
      → (All IsCopyable ps
          × (cs : List (CopiedPoint Double)) × (copy_nuc_temp_data (some ps) ≡ some cs)
          × (read_points cs ≡ some ps))
        ⊎ ((All IsCopyable ps → ⊥) × (copy_nuc_temp_data (some ps) ≡ none))
  unfolding copy_nuc_temp_data
  copy-read ps = elim (Option-cases (copy_points ps)) [
    | inr (cs, e) ↦ let (v, r) = copied-read ps cs e in inl (v, cs, e, r)
    | inl e ↦ inr (λ v. let (cs, made) = IsCopyable-copied ps v in absurd (ground arith), e)
  ]
