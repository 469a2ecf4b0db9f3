-- ===== src/IrStream/Copied.antt =====
-- native/src/ir_stream.cpp: what the metadata of a queued frame say of the header, field by field.
use ams_gra_mel_bridge.Prelude.{◌≡◌, refl, List, [], ◌∷◌, map}
use ams_gra_mel_bridge.IrStream.Frame.{
  Orientation, euler, quaternion, OrientationV1, NavState, Metadata, FrameHeader, copy_nav,
  copy_orientation, with_nav,
}

-- The kind of an orientation is authoritative: its member holds the provider's numbers.
abbrev pub Shows : Orientation → OrientationV1 → Type 0
Shows (euler angles) o = (o.kind ≡ 0) × (o.euler_v1 ≡ angles)
Shows (quaternion q) o = (o.kind ≡ 1) × (o.quaternion_v1 ≡ q)

pub record IsNav (n : NavState Orientation) (m : NavState OrientationV1) : Type 0 where
  pub same_position : m.position ≡ n.position
  pub same_position_error : m.position_error ≡ n.position_error
  pub same_velocity : m.velocity ≡ n.velocity
  pub same_velocity_error : m.velocity_error ≡ n.velocity_error
  pub same_acceleration : m.acceleration ≡ n.acceleration
  pub same_acceleration_error : m.acceleration_error ≡ n.acceleration_error
  pub same_orientation : Shows n.orientation m.orientation
  pub same_orientation_error : m.orientation_error ≡ n.orientation_error
  pub same_orientation_velocity : Shows n.orientation_velocity m.orientation_velocity
  pub same_orientation_velocity_error : m.orientation_velocity_error ≡ n.orientation_velocity_error
  pub same_orientation_acceleration : Shows n.orientation_acceleration m.orientation_acceleration
  pub same_orientation_acceleration_error :
      m.orientation_acceleration_error ≡ n.orientation_acceleration_error
  pub same_coordinate_system : m.coordinate_system ≡ n.coordinate_system

abbrev pub AreNavs : List (NavState Orientation) → List (NavState OrientationV1) → Type 0
AreNavs [] [] = Unit
AreNavs (n ∷ ns) (m ∷ ms) = IsNav n m × AreNavs ns ms
AreNavs _ _ = ⊥

-- Every field of the header, with its strings and lists.
pub record IsCopy (h : FrameHeader) (m : Metadata OrientationV1) : Type 0 where
  pub same_system_time_ns : m.system_time_ns ≡ h.system_time_ns
  pub same_integration_time_ns : m.integration_time_ns ≡ h.integration_time_ns
  pub same_width : m.width ≡ h.width
  pub same_height : m.height ≡ h.height
  pub same_bits_per_pixel : m.bits_per_pixel ≡ h.bits_per_pixel
  pub same_number_of_bands : m.number_of_bands ≡ h.number_of_bands
  pub same_horizontal_fov_rad : m.horizontal_fov_rad ≡ h.horizontal_fov_rad
  pub same_vertical_fov_rad : m.vertical_fov_rad ≡ h.vertical_fov_rad
  pub same_offset_m : m.offset_m ≡ h.offset_m
  pub same_location_key : m.location_key ≡ h.location_key
  pub same_location_system_name : m.location_system_name ≡ h.location_system_name
  pub same_sensor_id : m.sensor_id ≡ h.sensor_id
  pub same_pixel_format : m.pixel_format ≡ h.pixel_format
  pub same_frame_id : m.frame_id ≡ h.frame_id
  pub same_subframe_id : m.subframe_id ≡ h.subframe_id
  pub same_subframe_total : m.subframe_total ≡ h.subframe_total
  pub same_image_type : m.image_type ≡ h.image_type
  pub same_image_flip : m.image_flip ≡ h.image_flip
  pub same_flags : m.flags ≡ h.flags
  pub same_dither_row : m.dither_row ≡ h.dither_row
  pub same_dither_column : m.dither_column ≡ h.dither_column
  pub same_row_offset : m.row_offset ≡ h.row_offset
  pub same_column_offset : m.column_offset ≡ h.column_offset
  pub same_inertial : m.inertial ≡ h.inertial
  pub same_nav : AreNavs h.nav m.nav
  pub same_band_index : m.band_index ≡ h.band_index

copy_orientation-Shows : (o : Orientation) → Shows o (copy_orientation o)
unfolding copy_orientation
copy_orientation-Shows (euler angles) = (refl, refl)
copy_orientation-Shows (quaternion q) = (refl, refl)

copy_nav-IsNav : (n : NavState Orientation) → IsNav n (copy_nav n)
unfolding copy_nav
copy_nav-IsNav n = record {
  same_position = refl;
  same_position_error = refl;
  same_velocity = refl;
  same_velocity_error = refl;
  same_acceleration = refl;
  same_acceleration_error = refl;
  same_orientation = copy_orientation-Shows n.orientation;
  same_orientation_error = refl;
  same_orientation_velocity = copy_orientation-Shows n.orientation_velocity;
  same_orientation_velocity_error = refl;
  same_orientation_acceleration = copy_orientation-Shows n.orientation_acceleration;
  same_orientation_acceleration_error = refl;
  same_coordinate_system = refl;
}

copied-AreNavs : (ns : List (NavState Orientation)) → AreNavs ns (map copy_nav ns)
copied-AreNavs [] = tt
copied-AreNavs (n ∷ ns) = (copy_nav-IsNav n, copied-AreNavs ns)

pub with_nav-IsCopy : (h : FrameHeader) → IsCopy h (with_nav h (map copy_nav h.nav))
with_nav-IsCopy h = record {
  same_system_time_ns = refl;
  same_integration_time_ns = refl;
  same_width = refl;
  same_height = refl;
  same_bits_per_pixel = refl;
  same_number_of_bands = refl;
  same_horizontal_fov_rad = refl;
  same_vertical_fov_rad = refl;
  same_offset_m = refl;
  same_location_key = refl;
  same_location_system_name = refl;
  same_sensor_id = refl;
  same_pixel_format = refl;
  same_frame_id = refl;
  same_subframe_id = refl;
  same_subframe_total = refl;
  same_image_type = refl;
  same_image_flip = refl;
  same_flags = refl;
  same_dither_row = refl;
  same_dither_column = refl;
  same_row_offset = refl;
  same_column_offset = refl;
  same_inertial = refl;
  same_nav = copied-AreNavs h.nav;
  same_band_index = refl;
}
