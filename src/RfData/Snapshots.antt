-- ===== src/RfData/Snapshots.antt =====
-- native/src/rf_data.cpp: what the snapshots of a DataMEL owner share, and the snapshot of its array.
-- A double is copied as it is, and so a parameter.
use ams_gra_mel_bridge.Prelude.{
  ℕ, map, ◌-◌, ◌%◌, ◌^◌, Bool, true, false, ◌||◌, not, Option, none, some, List, [], ◌∷◌, leb, bit,
  ℤ, if◌then◌else◌, is_some, codes,
}
use ams_gra_mel_bridge.Diagnostic.{Diagnostic, write_diagnostic, clear_diagnostic, bad_diagnostic}
use ams_gra_mel_bridge.Provider.{
  Status, ok, invalid_argument, provider_failed, Fault, bad_alloc, Call, returned, threw,
  translate_provider_exception,
}
use ams_gra_mel_bridge.RfParent.{Parent}
use ams_gra_mel_bridge.RfData.{no_provider}

-- How the `try` block of a snapshot ends: with the snapshot, with a value that it refuses, or with
-- an exception.
pub data Made (A : Type 0) : Type 0 where
  made : A → Made A
  refused : List ℕ → Made A
  raised : Fault → Made A

infixl 5 ◌>>=◌
abbrev pub ◌>>=◌ : {A B : Type 0} → Made A → (A → Made B) → Made B
made a >>= f = f a
refused text >>= f = refused text
raised x >>= f = raised x

abbrev pub call : {A : Type 0} → Call A → Made A
call (returned a) = made a
call (threw f) = raised f

abbrev pub allocate : Bool → Made (Unit {0})
allocate true = made tt
allocate false = raised bad_alloc

abbrev slot_taken : {A : Type 0} → Option (Option A) → Bool
slot_taken none = true
slot_taken (some none) = false
slot_taken (some (some a)) = true

abbrev pub invalid_snapshot : {A : Type 0} → Option Parent → Option (Option A) → Diagnostic → Bool
invalid_snapshot owner slot d = no_provider owner || (slot_taken slot || bad_diagnostic d)

-- What the three entry points do around their `try` block: the status, the caller's slot and the text.
unfoldable pub snapshot :
    {A : Type 0}
    → List ℕ
    → List ℕ
    → Made A
    → Option Parent
    → Option (Option A)
    → Diagnostic
    → Status × Option (Option A) × Diagnostic
snapshot fallback unknown_text body owner slot d0 =
    let d = clear_diagnostic d0 in
    if invalid_snapshot owner slot d0
    then (invalid_argument, slot, write_diagnostic (codes "invalid argument") d)
    else elim body [
      | made a ↦ (ok, some (some a), d)
      | refused text ↦ (provider_failed, slot, write_diagnostic text d)
      | raised f ↦
          let (s, d') = translate_provider_exception fallback unknown_text f d in (s, slot, d')
    ]

-- The view of a snapshot, which is null or not, and its Close.
unfoldable pub snapshot_view :
    {A : Type 0}
    → Option A
    → Option (Option A)
    → Diagnostic
    → Status × Option (Option A) × Diagnostic
snapshot_view owner out d0 =
    let d = clear_diagnostic d0 in
    if not (is_some owner) || (not (is_some out) || bad_diagnostic d0)
    then (invalid_argument, out, write_diagnostic (codes "invalid argument") d)
    else (ok, some owner, d)

unfoldable pub snapshot_close :
    {A : Type 0} → Option (Option A) → Diagnostic → Status × Option (Option A) × Diagnostic
snapshot_close slot d0 =
    let d = clear_diagnostic d0 in
    if not (is_some slot) || bad_diagnostic d0
    then (invalid_argument, slot, write_diagnostic (codes "invalid argument") d)
    else (ok, some none, d)

-- `to_u64`
abbrev pub uint64_max : ℕ
uint64_max = 2 ^ 64 - 1

unfoldable pub to_u64 : List ℕ → ℕ → Made ℕ
to_u64 text value = if leb value uint64_max then made value else refused text

-- `raw_format`: the conversion to `std::uint32_t`.
abbrev pub raw_format : ℕ → ℕ
raw_format value = value % 2 ^ 32

-- The lowest and the highest frequency.
pub record FrequencyRange (Double : Type 0) : Type 0 where
  pub min_frequency : Double
  pub max_frequency : Double

-- The eight times of a face, which are counts of femtoseconds.
pub record FaceTimes : Type 0 where
  pub agc_processing_time : ℤ
  pub min_job_request_lead_time : ℤ
  pub max_job_request_lead_time : ℤ
  pub min_job_detail_lead_time : ℤ
  pub tx_rx_switching_time : ℤ
  pub rx_tx_switching_time : ℤ
  pub tx_tx_switching_time : ℤ
  pub rx_rx_switching_time : ℤ

-- What the provider's `RFMFAInfo` says of a face.
pub record FaceAnswers (Double : Type 0) : Type 0 where
  pub supports_receive : Bool
  pub supports_transmit : Bool
  pub requires_endpoint_association : Bool
  pub times : FaceTimes
  pub rx_frequency_ranges : List (FrequencyRange Double)
  pub tx_frequency_ranges : List (FrequencyRange Double)
  pub sample_frequency_range : List (FrequencyRange Double)

-- `ams_mel_rf_face_info_v1`, with the storage of its spans. The numbers of C stand for Booleans.
pub record FaceInfo (Double : Type 0) : Type 0 where
  pub face_id : ℕ
  pub receives : ℕ
  pub transmits : ℕ
  pub associates : ℕ
  pub times_fs : FaceTimes
  pub rx_ranges : List (FrequencyRange Double)
  pub tx_ranges : List (FrequencyRange Double)
  pub sample_ranges : List (FrequencyRange Double)

-- The provider's `RFMFAInfo`, whose getters may throw; the sets are in their order.
pub record ProviderInfo (Double : Type 0) : Type 0 where
  pub num_faces : Call ℕ
  pub contains_open_additions : Call Bool
  pub scheduler_resolution : Call ℤ
  pub max_context_bytes : Call ℕ
  pub data_formats : Call (List ℕ)
  pub face_ids : Call (List ℕ)
  pub face : ℕ → Call (FaceAnswers Double)

-- `ams_mel_rf_mfa_info_v1`, with the storage of its spans.
pub record MfaInfo (Double : Type 0) : Type 0 where
  pub reported_num_faces : ℕ
  pub open_additions : ℕ
  pub scheduler_resolution_fs : ℤ
  pub max_user_defined_context_bytes : ℕ
  pub supported_data_formats : List ℕ
  pub faces : List (FaceInfo Double)

module _ {Double : Type 0} where
  abbrev pub copied_face : ℕ → FaceAnswers Double → FaceInfo Double
  copied_face face a = record {
    face_id = face;
    receives = bit a.supports_receive;
    transmits = bit a.supports_transmit;
    associates = bit a.requires_endpoint_association;
    times_fs = a.times;
    rx_ranges = a.rx_frequency_ranges;
    tx_ranges = a.tx_frequency_ranges;
    sample_ranges = a.sample_frequency_range;
  }

  -- The loop over the faces.
  unfoldable pub copy_faces :
      (ℕ → Call (FaceAnswers Double)) → List ℕ → Made (List (FaceInfo Double))
  copy_faces answers [] = made []
  copy_faces answers (face ∷ ids) = do
    a ← call (answers face)
    rest ← copy_faces answers ids
    made (copied_face face a ∷ rest)

  -- The `try` block of `ams_mel_rf_data_get_mfa_info`.
  unfoldable pub make_mfa_info : Bool → Call (ProviderInfo Double) → Made (MfaInfo Double)
  unfolding to_u64 copy_faces
  make_mfa_info allocates provider = do
    owner ← allocate allocates
    info ← call provider
    faces ← call info.num_faces
    reported ← to_u64 (codes "provider getNumFaces value exceeds uint64_t") faces
    additions ← call info.contains_open_additions
    resolution ← call info.scheduler_resolution
    context ← call info.max_context_bytes
    bytes ←
        to_u64 (codes "provider getMaxNumUserDefinedContextBytes value exceeds uint64_t") context
    formats ← call info.data_formats
    ids ← call info.face_ids
    copied ← copy_faces info.face ids
    made (record {
      reported_num_faces = reported;
      open_additions = bit additions;
      scheduler_resolution_fs = resolution;
      max_user_defined_context_bytes = bytes;
      supported_data_formats = map raw_format formats;
      faces = copied;
    })

  unfoldable pub rf_data_get_mfa_info :
      Bool
      → Call (ProviderInfo Double)
      → Option Parent
      → Option (Option (MfaInfo Double))
      → Diagnostic
      → Status × Option (Option (MfaInfo Double)) × Diagnostic
  unfolding snapshot make_mfa_info
  rf_data_get_mfa_info allocates provider =
      snapshot (codes "provider RFMFAInfo exception") (codes "unknown provider RFMFAInfo exception")
        (make_mfa_info allocates provider)
