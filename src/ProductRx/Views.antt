-- ===== src/ProductRx/Views.antt =====
-- native/src/rf_product_rx.cpp, `ams_mel_rf_product_rx_event_view` to `..._v9`: what of an event a
-- caller can see through each version, and `ams_mel_rf_product_rx_event_close`.
use ams_gra_mel_bridge.Prelude.{
  ℕ, Bool, false, ◌&&◌, ◌||◌, not, Option, none, some, ltb, ◌==◌, if◌then◌else◌, codes,
}
use ams_gra_mel_bridge.Diagnostic.{Diagnostic, write_diagnostic, clear_diagnostic, bad_diagnostic}
use ams_gra_mel_bridge.Provider.{Status, ok, invalid_argument}
use ams_gra_mel_bridge.ProductRx.Event.{PacketSize, Format, Event, is_nil}

-- The codes AMS_MEL_RF_JOB_DATA_FORMAT_... of native/include/ams_mel/abi.h; an event has none of the
-- unsupported formats, whose codes are above these.
abbrev pub format_code : Format → ℕ
format_code Format.direct_int8 = 0
format_code Format.direct_int16 = 1
format_code Format.complex_int8 = 2
format_code Format.complex_int16 = 3
format_code (Format.vita PacketSize.small) = 4
format_code (Format.vita PacketSize.medium) = 5
format_code (Format.vita PacketSize.large) = 6
format_code (Format.vita PacketSize.extra_large) = 7
format_code Format.unsupported = 8

-- The formats that each version refuses.
abbrev pub foreign_format : ℕ → ℕ → Bool
foreign_format version code =
    if version == 1
    then not (code == 3)
    else if version == 2
    then not (code == 2) && not (code == 3)
    else if ltb version 7
    then ltb version code
    else false

module _ {R : Type 0} where
  -- The view of a version, from 1 to 9; `slot` is whether `out_view` is not null.
  unfoldable pub event_view : ℕ → Option (Event R) → Bool → Diagnostic → Status × Diagnostic
  event_view version none slot d = (invalid_argument, clear_diagnostic d)
  event_view version (some e) slot d =
      if bad_diagnostic d
        || (not slot
            || ((ltb version 8 && not (is_nil e.association_ids))
                || (ltb version 9 && not (is_nil e.stabilization_points))))
      then (invalid_argument, clear_diagnostic d)
      else if foreign_format version (format_code e.format)
      then (
        invalid_argument,
        if version == 1
            then write_diagnostic (codes "frozen v1 event view requires ComplexINT16")
                (clear_diagnostic d)
            else clear_diagnostic d,
      )
      else (ok, clear_diagnostic d)

  -- `ams_mel_rf_product_rx_event_close`: the slot after it.
  pub event_close :
      Option (Option (Event R)) → Diagnostic → Status × Option (Option (Event R)) × Diagnostic
  event_close none d = (invalid_argument, none, clear_diagnostic d)
  event_close (some owned) d =
      if bad_diagnostic d
      then (invalid_argument, some owned, clear_diagnostic d)
      else (ok, some none, clear_diagnostic d)
