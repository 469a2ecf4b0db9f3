-- ===== src/IrStream/Consume.antt =====
-- native/src/ir_stream.cpp: the whole of the owned-copy Receive after its wait, with the release of
-- the wrapper that it consumes, when no other thread and no callback comes between.
use ams_gra_mel_bridge.Prelude.{
  ℕ, ◌≤◌, ◌<◌, ◌≡◌, refl, ap, ◌∙◌, subst, ◌↔◌, ◌⊎◌, inl, inr, true, false, not, Option, none, some,
  List, [], ◌∷◌, length, take, if◌then◌else◌, codes, arith, Bool-cases,
}
use mathlib.Core.Option
use ams_gra_mel_bridge.Provider.{Status, ok, invalid_argument, buffer_too_small, provider_failed}
use ams_gra_mel_bridge.IrStream.Frame.{Metadata, OrientationV1}
use ams_gra_mel_bridge.IrStream.Callback.{
  Held, QueuedFrame, CallbackState, begin_external_release, admit_release,
}
use ams_gra_mel_bridge.IrStream.Stream.{ImageStreamState}
use ams_gra_mel_bridge.IrStream.Entry.{
  Answers, Reply, with_callback, release_retained_buffer, finish_deferred_cleanup,
}
use ams_gra_mel_bridge.IrStream.Untouched.{release-queue, finish-queue}
use ams_gra_mel_bridge.IrStream.Receive.{
  LegacyFields, LegacyFrame, legacy_fields, payload, payload_size, metadata, overwrite,
  receive_frame, bad_frame, receive_small, receive_large, take_all,
}

abbrev pub kept_reply : Reply
kept_reply = (provider_failed, codes "provider buffer release failed; provider graph retained")

-- What follows the critical section, with the wrapper that it has consumed, if any.
unfoldable pub release_consumed :
    Answers
    → Status × LegacyFrame × Option QueuedFrame × CallbackState
    → ImageStreamState
    → Reply × LegacyFrame × ImageStreamState
release_consumed w (status, frame, none, c) s = ((status, []), frame, with_callback c s)
release_consumed w (status, frame, some front, c) s =
    let (done, t) = release_retained_buffer w front.held (with_callback c s) in
    if not done
    then (kept_reply, frame, t)
    else ((status, []), frame, (finish_deferred_cleanup w false t).1)

-- `ams_mel_ir_stream_receive` with arguments that are not null, from the end of its wait on.
unfoldable pub stream_receive :
    (ℕ → ℕ → List ℕ)
    → Answers
    → LegacyFrame
    → ImageStreamState
    → Reply × LegacyFrame × ImageStreamState
unfolding release_consumed
stream_receive memory w frame s =
    if bad_frame frame
    then ((invalid_argument, []), frame, s)
    else release_consumed w (receive_frame memory frame s.callback) s

-- The fields of the caller's frame are those of the header; its flags are left open.
pub record ShowsHeader (m : Metadata OrientationV1) (f : LegacyFields) : Type 0 where
  pub shows_system_time_ns : f.system_time_ns ≡ m.system_time_ns
  pub shows_integration_time_ns : f.integration_time_ns ≡ m.integration_time_ns
  pub shows_width : f.width ≡ m.width
  pub shows_height : f.height ≡ m.height
  pub shows_bits_per_pixel : f.bits_per_pixel ≡ m.bits_per_pixel
  pub shows_number_of_bands : f.number_of_bands ≡ m.number_of_bands
  pub shows_horizontal_fov_rad : f.horizontal_fov_rad ≡ m.horizontal_fov_rad
  pub shows_vertical_fov_rad : f.vertical_fov_rad ≡ m.vertical_fov_rad
  pub shows_pixel_format : f.pixel_format ≡ m.pixel_format
  pub shows_frame_id : f.frame_id ≡ m.frame_id
  pub shows_subframe_id : f.subframe_id ≡ m.subframe_id
  pub shows_subframe_total : f.subframe_total ≡ m.subframe_total
  pub shows_image_type : f.image_type ≡ m.image_type
  pub shows_image_flip : f.image_flip ≡ m.image_flip
  pub shows_dither_row : f.dither_row ≡ m.dither_row
  pub shows_dither_column : f.dither_column ≡ m.dither_column
  pub shows_row_offset : f.row_offset ≡ m.row_offset
  pub shows_column_offset : f.column_offset ≡ m.column_offset
  pub shows_band_index : f.band_index ≡ m.band_index

legacy_fields-ShowsHeader : (m : Metadata OrientationV1) → ShowsHeader m (legacy_fields m)
unfolding legacy_fields
legacy_fields-ShowsHeader m = record {
  shows_system_time_ns = refl;
  shows_integration_time_ns = refl;
  shows_width = refl;
  shows_height = refl;
  shows_bits_per_pixel = refl;
  shows_number_of_bands = refl;
  shows_horizontal_fov_rad = refl;
  shows_vertical_fov_rad = refl;
  shows_pixel_format = refl;
  shows_frame_id = refl;
  shows_subframe_id = refl;
  shows_subframe_total = refl;
  shows_image_type = refl;
  shows_image_flip = refl;
  shows_dither_row = refl;
  shows_dither_column = refl;
  shows_row_offset = refl;
  shows_column_offset = refl;
  shows_band_index = refl;
}

-- The provider can be asked, and takes the wrapper back.
abbrev pub TakenBack : Answers → Held → ImageStreamState → Type 0
TakenBack w held s = (0 < length s.free_uncertain_slots) × (w.releases held.buffer ≡ true)

release-TakenBack :
    (w : Answers) (held : Held) (s : ImageStreamState) (slots : List ℕ)
    → s.free_uncertain_slots ≡ slots
    → ((release_retained_buffer w held s).0 ≡ true) ↔ TakenBack w held s
unfolding release_retained_buffer begin_external_release admit_release
release-TakenBack w held s [] e = (λ h. ground arith, λ h. ground arith)
release-TakenBack w held s (slot ∷ rest) e = (λ h. ground arith, λ h. ground arith)

-- A consumed frame.
release_consumed-some :
    (w : Answers) (frame : LegacyFrame) (front : QueuedFrame) (c : CallbackState)
    (s : ImageStreamState)
    → let r = release_consumed w (ok, frame, some front, c) s in
      ((r.0.0 ≡ ok) ↔ TakenBack w front.held (with_callback c s))
      × ((r.0 ≡ (ok, [])) ⊎ (r.0 ≡ kept_reply))
      × (r.1 ≡ frame)
      × (r.2.queue ≡ c.queue)
unfolding release_consumed
release_consumed-some w frame front c s =
    let t = with_callback c s in
    let (to, from) = release-TakenBack w front.held t _ refl in
    let q = release-queue w front.held t (begin_external_release false front.held c).0 refl in
    elim (Bool-cases (release_retained_buffer w front.held t).0) [
      | inl done ↦ rw done (
        (λ e. to done, λ e. refl),
        inl refl,
        refl,
        finish-queue w (release_retained_buffer w front.held t).1 ∙ q,
      )
      | inr lost ↦
          rw lost
            ((λ e. absurd (ground arith), λ e. absurd (let good = from e in cc)), inr refl, refl, q)
    ]

-- A caller learns the size that it needs: while a frame is queued and nothing else moves the stream, a
-- first Receive with valid arguments and a buffer that is too small takes nothing and reports a size,
-- and a second Receive with a buffer of at least that size takes the same frame, the oldest, and
-- leaves exactly its bytes at the start of the caller's storage, and all its header's fields but the
-- flags, which are not spoken of. It returns `ok` exactly when an uncertain slot is free and the
-- provider then takes the wrapper back, and else, after the copy, `provider_failed` with a text.
pub receive_twice :
    (memory : ℕ → ℕ → List ℕ) (w : Answers) (first second : LegacyFrame) (storage : List ℕ)
    (s : ImageStreamState) (front : QueuedFrame) (rest : List QueuedFrame)
    → ((a n : ℕ) → length (memory a n) ≡ n)
    → s.queue ≡ front ∷ rest
    → bad_frame first ≡ false
    → first.pixel_capacity < payload_size front.view
    → second.pixels ≡ some storage
    → (stream_receive memory w first s).1.pixel_required ≤ second.pixel_capacity
    → let small = stream_receive memory w first s in
      let large = stream_receive memory w second s in
      (small.0 ≡ (buffer_too_small, []))
      × (small.2 ≡ s)
      × (large.2.queue ≡ rest)
      × (Option.map (take (payload_size front.view)) large.1.pixels
          ≡ some (memory (payload front.view) (payload_size front.view)))
      × ShowsHeader (metadata front.view) large.1.fields
      × ((large.0.0 ≡ ok) ↔ TakenBack w front.held s)
      × ((large.0 ≡ (ok, [])) ⊎ (large.0 ≡ kept_reply))
unfolding stream_receive
receive_twice memory w first second storage s front rest sized q valid less p large =
    let c = s.callback in
    let none_taken = receive_small memory first c front rest q less in
    let small_is : stream_receive memory w first s
        ≡ ((buffer_too_small, []), record first { pixel_required = payload_size front.view }, s) =
      rw (valid, none_taken) refl in
    let fits : payload_size front.view ≤ second.pixel_capacity = rw small_is at large in
    let taken = receive_large memory second storage c front rest q p fits in
    let fine : bad_frame second ≡ false = rw p refl in
    let bytes = memory (payload front.view) (payload_size front.view) in
    let whole : take (payload_size front.view) (overwrite bytes storage) ≡ bytes =
      subst (λ n. take n (overwrite bytes storage) ≡ bytes) (sized _ _) (take_all bytes _) in
    let (answer, replies, shown, left) =
      release_consumed-some w
        (record {
          fields = legacy_fields (metadata front.view);
          pixels = some (overwrite bytes storage);
          pixel_capacity = second.pixel_capacity;
          pixel_required = payload_size front.view;
        })
        front (record c { queue = rest }) s in
    (
      ap (λ r. r.0) small_is,
      ap (λ r. r.2) small_is,
      rw (fine, taken) left,
      rw (fine, taken)
          (ap (λ (f : LegacyFrame). Option.map (take (payload_size front.view)) f.pixels) shown
            ∙ ap some whole),
      rw (fine, taken, shown) (legacy_fields-ShowsHeader (metadata front.view)),
      rw (fine, taken) answer,
      rw (fine, taken) replies,
    )
