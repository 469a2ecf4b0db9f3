-- ===== src/RfData/Copied.antt =====
-- native/src/rf_data.cpp: when `ams_mel_rf_data_get_mfa_info` gives a snapshot, and of what.
use ams_gra_mel_bridge.Prelude.{ℕ, map, ◌≤◌, Bool, List, [], ◌∷◌, bit, ◌≡◌}
use ams_gra_mel_bridge.Diagnostic.{Diagnostic}
use ams_gra_mel_bridge.Provider.{Call, returned}
use ams_gra_mel_bridge.RfData.Snapshots.{
  uint64_max, raw_format, FaceAnswers, FaceInfo, ProviderInfo, MfaInfo,
}

module _ {Double : Type 0} where
  -- A face of the snapshot says what the provider says of it.
  pub record IsFace (id : ℕ) (a : FaceAnswers Double) (f : FaceInfo Double) : Type 0 where
    pub same_id : f.face_id ≡ id
    pub same_receives : f.receives ≡ bit a.supports_receive
    pub same_transmits : f.transmits ≡ bit a.supports_transmit
    pub same_associates : f.associates ≡ bit a.requires_endpoint_association
    pub same_times : f.times_fs ≡ a.times
    pub same_rx : f.rx_ranges ≡ a.rx_frequency_ranges
    pub same_tx : f.tx_ranges ≡ a.tx_frequency_ranges
    pub same_samples : f.sample_ranges ≡ a.sample_frequency_range

  -- The faces that are copied are those that the provider lists, each with all that it says of it.
  abbrev pub AreCopied : (ℕ → Call (FaceAnswers Double)) → List ℕ → List (FaceInfo Double) → Type 0
  AreCopied answers [] [] = Unit
  AreCopied answers (id ∷ ids) (f ∷ fs) =
      ((a : FaceAnswers Double) × (answers id ≡ returned a) × IsFace id a f)
      × AreCopied answers ids fs
  AreCopied answers _ _ = ⊥

  -- Each getter has returned what the snapshot holds.
  pub record IsCopy (i : ProviderInfo Double) (m : MfaInfo Double) : Type 0 where
    pub faces_reported : i.num_faces ≡ returned m.reported_num_faces
    pub faces_fit : m.reported_num_faces ≤ uint64_max
    pub additions :
        (b : Bool) × (i.contains_open_additions ≡ returned b) × (m.open_additions ≡ bit b)
    pub resolution : i.scheduler_resolution ≡ returned m.scheduler_resolution_fs
    pub context : i.max_context_bytes ≡ returned m.max_user_defined_context_bytes
    pub context_fits : m.max_user_defined_context_bytes ≤ uint64_max
    pub formats :
        (fs : List ℕ) × (i.data_formats ≡ returned fs)
        × (m.supported_data_formats ≡ map raw_format fs)
    pub copies : (ids : List ℕ) × (i.face_ids ≡ returned ids) × AreCopied i.face ids m.faces
