-- ===== src/RfData/Modes.antt =====
-- native/src/rf_data.cpp: the snapshots of the transmit power modes of a face, and of its geometry.
use ams_gra_mel_bridge.Prelude.{
  ℕ, Bool, true, false, ◌||◌, not, Option, List, [], ◌∷◌, bit, ℤ, if◌then◌else◌, codes,
}
use ams_gra_mel_bridge.Utf8.{valid_utf8}
use ams_gra_mel_bridge.Diagnostic.{Diagnostic}
use ams_gra_mel_bridge.Provider.{Status, Call}
use ams_gra_mel_bridge.RfParent.{Parent}
use ams_gra_mel_bridge.RfData.Snapshots.{
  Made, made, refused, ◌>>=◌, call, allocate, FrequencyRange, snapshot, snapshot_view,
  snapshot_close,
}

-- What the provider's `TxPowerModeData` says; its ranges are those of a face, which it may refuse by an
-- exception.
pub record TxPowerModeData (Double : Type 0) : Type 0 where
  pub mode_id : ℕ
  pub is_linear : Bool
  pub power_level : ℕ
  pub frequency_ranges : ℕ → Call (List (FrequencyRange Double))
  pub duty_factor : Double
  pub pulse_width : ℤ
  pub attenuation : Double
  pub attenuation_step : Double

-- `ams_mel_rf_tx_power_mode_v1`, with the storage of its span.
pub record TxPowerMode (Double : Type 0) : Type 0 where
  pub tx_power_mode_id : ℕ
  pub is_linear_operation : ℕ
  pub tx_power_level : ℕ
  pub tx_frequency_ranges : List (FrequencyRange Double)
  pub max_tx_duty_factor : Double
  pub max_tx_pulse_width_ns : ℤ
  pub max_tx_atten : Double
  pub tx_atten_step_size : Double

-- The provider's answers: the modes of a face, and one mode by its id.
pub record TxPowerModes (Double : Type 0) : Type 0 where
  pub of_face : ℕ → Call (List (TxPowerModeData Double))
  pub by_id : ℕ → ℕ → Call (TxPowerModeData Double)

pub record Orientation (Double : Type 0) : Type 0 where
  pub roll : Double
  pub pitch : Double
  pub yaw : Double

-- What the provider's `PhysicalData` says, and the storage behind `ams_mel_rf_physical_data_v1`.
pub record PhysicalData (Double : Type 0) : Type 0 where
  pub antenna_height : Double
  pub antenna_width : Double
  pub lattice_angle : Double
  pub offset_x : Double
  pub offset_y : Double
  pub offset_z : Double
  pub key : List ℕ
  pub system_name : List ℕ
  pub orientation : Orientation Double
  pub boresight : Orientation Double

module _ {Double : Type 0} where
  -- `ams_mel_rf_tx_power_mode_snapshot::copy`
  unfoldable pub copy_modes : ℕ → List (TxPowerModeData Double) → Made (List (TxPowerMode Double))
  copy_modes face [] = made []
  copy_modes face (source ∷ rest) = do
    ranges ← call (source.frequency_ranges face)
    modes ← copy_modes face rest
    made (
        record {
          tx_power_mode_id = source.mode_id;
          is_linear_operation = bit source.is_linear;
          tx_power_level = source.power_level;
          tx_frequency_ranges = ranges;
          max_tx_duty_factor = source.duty_factor;
          max_tx_pulse_width_ns = source.pulse_width;
          max_tx_atten = source.attenuation;
          tx_atten_step_size = source.attenuation_step;
        }
        ∷ modes)

  abbrev select_modes : TxPowerModes Double → ℕ → ℕ → Bool → Made (List (TxPowerModeData Double))
  select_modes info face id true = do mode ← call (info.by_id id face); made (mode ∷ [])
  select_modes info face id false = call (info.of_face face)

  -- The `try` block of `snapshot_tx_modes`, for one mode, `direct`, or for all modes of the face.
  unfoldable pub make_tx_modes :
      Bool → Call (TxPowerModes Double) → ℕ → ℕ → Bool → Made (List (TxPowerMode Double))
  unfolding copy_modes
  make_tx_modes allocates provider face id direct = do
    owner ← allocate allocates
    info ← call provider
    modes ← select_modes info face id direct
    copy_modes face modes

  unfoldable pub snapshot_tx_modes :
      Bool
      → Call (TxPowerModes Double)
      → Option Parent
      → ℕ
      → ℕ
      → Bool
      → Option (Option (List (TxPowerMode Double)))
      → Diagnostic
      → Status × Option (Option (List (TxPowerMode Double))) × Diagnostic
  snapshot_tx_modes allocates provider owner face id direct =
      snapshot (codes "provider TxPowerModeData exception")
        (codes "unknown provider TxPowerModeData exception")
        (make_tx_modes allocates provider face id direct) owner

  pub rf_data_get_tx_power_modes :
      Bool
      → Call (TxPowerModes Double)
      → Option Parent
      → ℕ
      → Option (Option (List (TxPowerMode Double)))
      → Diagnostic
      → Status × Option (Option (List (TxPowerMode Double))) × Diagnostic
  rf_data_get_tx_power_modes allocates provider owner face =
      snapshot_tx_modes allocates provider owner face 0 false

  pub rf_data_get_tx_power_mode :
      Bool
      → Call (TxPowerModes Double)
      → Option Parent
      → ℕ
      → ℕ
      → Option (Option (List (TxPowerMode Double)))
      → Diagnostic
      → Status × Option (Option (List (TxPowerMode Double))) × Diagnostic
  rf_data_get_tx_power_mode allocates provider owner face id =
      snapshot_tx_modes allocates provider owner face id true

  abbrev valid_names : PhysicalData Double → Made (Unit {0})
  valid_names physical =
      if not (valid_utf8 physical.key true) || not (valid_utf8 physical.system_name true)
      then refused (codes "malformed provider PhysicalData ForeignKey")
      else made tt

  -- The `try` block of `ams_mel_rf_data_get_physical_data`; `strings` is whether the two texts find
  -- memory.
  unfoldable pub make_physical_data :
      Bool → Bool → Call (PhysicalData Double) → Made (PhysicalData Double)
  make_physical_data allocates strings provider = do
    owner ← allocate allocates
    physical ← call provider
    names ← valid_names physical
    stored ← allocate strings
    made physical

  pub rf_data_get_physical_data :
      Bool
      → Bool
      → Call (PhysicalData Double)
      → Option Parent
      → Option (Option (PhysicalData Double))
      → Diagnostic
      → Status × Option (Option (PhysicalData Double)) × Diagnostic
  unfolding make_physical_data
  rf_data_get_physical_data allocates strings provider =
      snapshot (codes "provider PhysicalData exception")
        (codes "unknown provider PhysicalData exception")
        (make_physical_data allocates strings provider)

  pub rf_tx_power_mode_snapshot_view :
      Option (List (TxPowerMode Double))
      → Option (Option (List (TxPowerMode Double)))
      → Diagnostic
      → Status × Option (Option (List (TxPowerMode Double))) × Diagnostic
  rf_tx_power_mode_snapshot_view = snapshot_view

  pub rf_tx_power_mode_snapshot_close :
      Option (Option (List (TxPowerMode Double)))
      → Diagnostic
      → Status × Option (Option (List (TxPowerMode Double))) × Diagnostic
  rf_tx_power_mode_snapshot_close = snapshot_close

  pub rf_physical_data_view :
      Option (PhysicalData Double)
      → Option (Option (PhysicalData Double))
      → Diagnostic
      → Status × Option (Option (PhysicalData Double)) × Diagnostic
  rf_physical_data_view = snapshot_view

  pub rf_physical_data_close :
      Option (Option (PhysicalData Double))
      → Diagnostic
      → Status × Option (Option (PhysicalData Double)) × Diagnostic
  rf_physical_data_close = snapshot_close
