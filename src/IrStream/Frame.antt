-- ===== src/IrStream/Frame.antt =====
-- native/src/ir_stream.cpp, `snapshot_frame`: the metadata of a frame in the C layout, beside the
-- address and the length of its pixels, which stay in the provider's buffer. A number that is only
-- copied, such as the bits of a double, is a natural number.
use ams_gra_mel_bridge.Prelude.{
  ℕ, true, ◌||◌, not, Option, none, some, List, [], ◌∷◌, map, ltb, if◌then◌else◌, ℤ, ◌≤◌, ◌≡◌, inl,
  inr, All, Option-cases, arith,
}
use ams_gra_mel_bridge.Utf8.{valid_utf8}

pub record Directional : Type 0 where
  pub x : ℕ
  pub y : ℕ
  pub z : ℕ

-- A quaternion or an error of the navigation.
pub record Quadruple : Type 0 where
  pub qx : ℕ
  pub qy : ℕ
  pub qz : ℕ
  pub qw : ℕ

pub record Euler : Type 0 where
  pub roll : ℕ
  pub pitch : ℕ
  pub yaw : ℕ

-- The provider's variant; the getter of the other alternative throws `std::bad_variant_access`.
pub data Orientation : Type 0 where
  euler : Euler → Orientation
  quaternion : Quadruple → Orientation

-- `ams_mel_ir_orientation_v1`
pub record OrientationV1 : Type 0 where
  pub kind : ℕ
  pub euler_v1 : Euler
  pub quaternion_v1 : Quadruple

pub record Inertial : Type 0 where
  pub inertial_time : ℤ
  pub q_xyzw : Quadruple
  pub qecef_xyzw : Quadruple
  pub sensor_position : Directional
  pub sensor_velocity : Directional
  pub sensor_uncertainties : ℕ
  pub platform_uncertainties : ℕ

pub record NavState (O : Type 0) : Type 0 where
  pub position : Directional
  pub position_error : Quadruple
  pub velocity : Directional
  pub velocity_error : Quadruple
  pub acceleration : Directional
  pub acceleration_error : Quadruple
  pub orientation : O
  pub orientation_error : Quadruple
  pub orientation_velocity : O
  pub orientation_velocity_error : Quadruple
  pub orientation_acceleration : O
  pub orientation_acceleration_error : Quadruple
  pub coordinate_system : ℕ

-- What the header and its copy have in common: the getters' values on the one side, the fields of
-- `ams_mel_ir_frame_snapshot_v1` with the strings and vectors of QueuedFrame on the other.
pub record Metadata (O : Type 0) : Type 0 where
  pub system_time_ns : ℤ
  pub integration_time_ns : ℤ
  pub width : ℕ
  pub height : ℕ
  pub bits_per_pixel : ℕ
  pub number_of_bands : ℕ
  pub horizontal_fov_rad : ℕ
  pub vertical_fov_rad : ℕ
  pub offset_m : Directional
  pub location_key : List ℕ
  pub location_system_name : List ℕ
  pub sensor_id : ℕ
  pub pixel_format : ℕ
  pub frame_id : ℕ
  pub subframe_id : ℕ
  pub subframe_total : ℕ
  pub image_type : ℕ
  pub image_flip : ℕ
  pub flags : List ℕ
  pub dither_row : ℕ
  pub dither_column : ℕ
  pub row_offset : ℕ
  pub column_offset : ℕ
  pub inertial : List Inertial
  pub nav : List (NavState O)
  pub band_index : ℕ

abbrev pub FrameHeader : Type 0
FrameHeader = Metadata Orientation

-- The view of a queued frame, bound to its strings and vectors and to the provider's pixels.
pub data FrameView : Type 0 where
  frame_view : Metadata OrientationV1 → ℕ → ℕ → FrameView

abbrev no_euler : Euler
no_euler = record { roll = 0; pitch = 0; yaw = 0 }

abbrev no_quaternion : Quadruple
no_quaternion = record { qx = 0; qy = 0; qz = 0; qw = 0 }

-- `orientation`, where the first getter throws on a quaternion.
unfoldable pub copy_orientation : Orientation → OrientationV1
copy_orientation (euler angles) = record {
  kind = 0;
  euler_v1 = angles;
  quaternion_v1 = no_quaternion;
}
copy_orientation (quaternion q) = record { kind = 1; euler_v1 = no_euler; quaternion_v1 = q }

unfoldable pub copy_nav : NavState Orientation → NavState OrientationV1
unfolding copy_orientation
copy_nav n = record {
  position = n.position;
  position_error = n.position_error;
  velocity = n.velocity;
  velocity_error = n.velocity_error;
  acceleration = n.acceleration;
  acceleration_error = n.acceleration_error;
  orientation = copy_orientation n.orientation;
  orientation_error = n.orientation_error;
  orientation_velocity = copy_orientation n.orientation_velocity;
  orientation_velocity_error = n.orientation_velocity_error;
  orientation_acceleration = copy_orientation n.orientation_acceleration;
  orientation_acceleration_error = n.orientation_acceleration_error;
  coordinate_system = n.coordinate_system;
}

-- The loop over the flags throws at the first that is above 3.
unfoldable pub copy_flags : List ℕ → Option (List ℕ)
copy_flags [] = some []
copy_flags (flag ∷ rest) =
    let copied = copy_flags rest in
    if ltb 3 flag then none else elim copied [ none ↦ none | some more ↦ some (flag ∷ more) ]

-- So does that over the states of the navigation, at a coordinate system above 3.
unfoldable pub copy_navs : List (NavState Orientation) → Option (List (NavState OrientationV1))
unfolding copy_nav
copy_navs [] = some []
copy_navs (n ∷ rest) =
    let copied = copy_navs rest in
    if ltb 3 n.coordinate_system
    then none
    else elim copied [ none ↦ none | some more ↦ some (copy_nav n ∷ more) ]

abbrev pub with_nav : FrameHeader → List (NavState OrientationV1) → Metadata OrientationV1
with_nav h navs = record {
  system_time_ns = h.system_time_ns;
  integration_time_ns = h.integration_time_ns;
  width = h.width;
  height = h.height;
  bits_per_pixel = h.bits_per_pixel;
  number_of_bands = h.number_of_bands;
  horizontal_fov_rad = h.horizontal_fov_rad;
  vertical_fov_rad = h.vertical_fov_rad;
  offset_m = h.offset_m;
  location_key = h.location_key;
  location_system_name = h.location_system_name;
  sensor_id = h.sensor_id;
  pixel_format = h.pixel_format;
  frame_id = h.frame_id;
  subframe_id = h.subframe_id;
  subframe_total = h.subframe_total;
  image_type = h.image_type;
  image_flip = h.image_flip;
  flags = h.flags;
  dither_row = h.dither_row;
  dither_column = h.dither_column;
  row_offset = h.row_offset;
  column_offset = h.column_offset;
  inertial = h.inertial;
  nav = navs;
  band_index = h.band_index;
}

-- `snapshot_frame` of a header whose getters return, where memory is found; `none` is a
-- throw. The routine that validates the strings is a copy of the provider's, with NUL rejected.
unfoldable pub snapshot_frame : FrameHeader → ℕ → ℕ → Option FrameView
snapshot_frame h pixels pixel_count =
    if ltb 2 h.image_type || ltb 3 h.image_flip
    then none
    else if not (valid_utf8 h.location_key true) || not (valid_utf8 h.location_system_name true)
    then none
    else elim (copy_flags h.flags) [
      | none ↦ none
      | some copied ↦ elim (copy_navs h.nav) [
        | none ↦ none
        | some navs ↦
            some (frame_view (record (with_nav h navs) { flags = copied }) pixels pixel_count)
      ]
    ]

copy_flags-some :
    (fs : List ℕ) {gs : List ℕ} → copy_flags fs ≡ some gs → (gs ≡ fs) × All (λ f. f ≤ 3) fs
unfolding copy_flags
copy_flags-some [] e = (ground arith, tt)
copy_flags-some (f ∷ fs) {gs = gs} e = elim (Option-cases (copy_flags fs)) [
  | inl stopped ↦ absurd (ground arith)
  | inr (more, copied) ↦
      let (same, small) = copy_flags-some fs copied in (ground arith, (ground arith, small))
]

copy_navs-some :
    (ns : List (NavState Orientation)) {ms : List (NavState OrientationV1)}
    → copy_navs ns ≡ some ms
    → (ms ≡ map copy_nav ns) × All (λ n. n.coordinate_system ≤ 3) ns
unfolding copy_navs
copy_navs-some [] e = (ground arith, tt)
copy_navs-some (n ∷ ns) e = elim (Option-cases (copy_navs ns)) [
  | inl stopped ↦ absurd (ground arith)
  | inr (more, copied) ↦
      let (same, small) = copy_navs-some ns copied in (ground arith, (ground arith, small))
]

-- A header that is copied is copied whole, and its enumerations and strings are valid.
pub snapshot_frame-some :
    (h : FrameHeader) (pixels pixel_count : ℕ) {view : FrameView}
    → snapshot_frame h pixels pixel_count ≡ some view
    → (view ≡ frame_view (with_nav h (map copy_nav h.nav)) pixels pixel_count)
      × (h.image_type ≤ 2)
      × (h.image_flip ≤ 3)
      × (valid_utf8 h.location_key true ≡ true)
      × (valid_utf8 h.location_system_name true ≡ true)
      × All (λ f. f ≤ 3) h.flags
      × All (λ n. n.coordinate_system ≤ 3) h.nav
unfolding snapshot_frame
snapshot_frame-some h pixels pixel_count e = elim (Option-cases (copy_flags h.flags)) [
  | inl stopped ↦ absurd (ground arith)
  | inr (copied, f) ↦ elim (Option-cases (copy_navs h.nav)) [
    | inl stopped ↦ absurd (ground arith)
    | inr (navs, g) ↦
        let (flags_same, flags_small) = copy_flags-some h.flags f in
        let (navs_same, navs_small) = copy_navs-some h.nav g in
        (
          ground arith,
          ground arith,
          ground arith,
          ground arith,
          ground arith,
          flags_small,
          navs_small,
        )
  ]
]
