-- ===== src/IrStream/Receive.antt =====
-- native/src/ir_stream.cpp: the owned-copy Receive and the snapshot Receive, from the end of their wait
-- on, which is also all of them when `timeout_ms` is 0, and the counters.
use ams_gra_mel_bridge.Prelude.{
  ℕ, ◌+◌, ◌-◌, ◌≤◌, ◌<◌, ◌≡◌, refl, inl, inr, Bool, true, ◌&&◌, not, Option, none, some, List, [],
  ◌∷◌, ◌++◌, length, take, drop, ltb, ◌==◌, if◌then◌else◌, is_some, Option-cases, ℤ, ap, arith, min,
}
use Prim.Native.Nat.{bit_or, ◌^◌}
use mathlib.Core.Option
use ams_gra_mel_bridge.Diagnostic.{Diagnostic}
use ams_gra_mel_bridge.Provider.{
  Status, ok, timeout, stream_stopped, provider_failed, buffer_too_small,
}
use ams_gra_mel_bridge.IrStream.Frame.{Metadata, OrientationV1, FrameView, frame_view}
use ams_gra_mel_bridge.IrStream.Callback.{
  CallbackState, QueuedFrame, Lifecycle, is_failed, terminal,
}

-- `diagnostic` of this file: cut off at the capacity, without regard to the encoding.
abbrev cut : List ℕ → ℕ → List ℕ → List ℕ
cut text capacity old =
    if capacity == 0
    then old
    else take (min (length text) (capacity - 1)) text
      ++ (0 ∷ drop (min (length text) (capacity - 1) + 1) old)

unfoldable pub stream_diagnostic : List ℕ → Diagnostic → Diagnostic
stream_diagnostic text d = record d {
  buffer = Option.map (cut text d.capacity) d.buffer;
  required = Option.map (λ _. length text + 1) d.required;
}

-- The fields of `ams_mel_ir_frame_v1` that come from the header.
pub record LegacyFields : Type 0 where
  pub system_time_ns : ℤ
  pub integration_time_ns : ℤ
  pub width : ℕ
  pub height : ℕ
  pub bits_per_pixel : ℕ
  pub number_of_bands : ℕ
  pub horizontal_fov_rad : ℕ
  pub vertical_fov_rad : ℕ
  pub pixel_format : ℕ
  pub frame_id : ℕ
  pub subframe_id : ℕ
  pub subframe_total : ℕ
  pub image_type : ℕ
  pub image_flip : ℕ
  pub image_flags : ℕ
  pub dither_row : ℕ
  pub dither_column : ℕ
  pub row_offset : ℕ
  pub column_offset : ℕ
  pub band_index : ℕ

-- `ams_mel_ir_frame_v1`: `pixels` is the caller's storage, or a null pointer.
pub record LegacyFrame : Type 0 where
  pub fields : LegacyFields
  pub pixels : Option (List ℕ)
  pub pixel_capacity : ℕ
  pub pixel_required : ℕ

-- The loop that sets a bit for each flag.
unfoldable pub flag_bits : ℕ → List ℕ → ℕ
flag_bits bits [] = bits
flag_bits bits (flag ∷ rest) = flag_bits (bit_or bits (2 ^ flag)) rest

unfoldable pub legacy_fields : Metadata OrientationV1 → LegacyFields
unfolding flag_bits
legacy_fields m = record {
  system_time_ns = m.system_time_ns;
  integration_time_ns = m.integration_time_ns;
  width = m.width;
  height = m.height;
  bits_per_pixel = m.bits_per_pixel;
  number_of_bands = m.number_of_bands;
  horizontal_fov_rad = m.horizontal_fov_rad;
  vertical_fov_rad = m.vertical_fov_rad;
  pixel_format = m.pixel_format;
  frame_id = m.frame_id;
  subframe_id = m.subframe_id;
  subframe_total = m.subframe_total;
  image_type = m.image_type;
  image_flip = m.image_flip;
  image_flags = flag_bits 0 m.flags;
  dither_row = m.dither_row;
  dither_column = m.dither_column;
  row_offset = m.row_offset;
  column_offset = m.column_offset;
  band_index = m.band_index;
}

abbrev pub payload : FrameView → ℕ
payload (frame_view m pixels bytes) = pixels

abbrev pub payload_size : FrameView → ℕ
payload_size (frame_view m pixels bytes) = bytes

abbrev pub metadata : FrameView → Metadata OrientationV1
metadata (frame_view m pixels bytes) = m

-- What a Receive of an empty queue reports.
unfoldable pub empty_status : Lifecycle → Status
empty_status l =
    if is_failed l then provider_failed else if terminal l then stream_stopped else timeout

-- The `memcpy` into the caller's storage.
abbrev pub overwrite : List ℕ → List ℕ → List ℕ
overwrite bytes old = bytes ++ drop (length bytes) old

-- `ams_mel_ir_stream_receive` up to the release of the wrapper that it consumes, which is that of the
-- frame in its result. `memory` reads the host bytes at an address.
unfoldable pub receive_frame :
    (ℕ → ℕ → List ℕ)
    → LegacyFrame
    → CallbackState
    → Status × LegacyFrame × Option QueuedFrame × CallbackState
receive_frame memory frame c = elim c.queue [
  | [] ↦ (empty_status c.lifecycle, frame, none, c)
  | front ∷ rest ↦
      let needed = record frame { pixel_required = payload_size front.view } in
      elim frame.pixels [
        | none ↦ (buffer_too_small, needed, none, c)
        | some storage ↦
            if ltb frame.pixel_capacity (payload_size front.view)
            then (buffer_too_small, needed, none, c)
            else (
              ok,
              record {
                fields = legacy_fields (metadata front.view);
                pixels =
                    some
                      (overwrite (memory (payload front.view) (payload_size front.view)) storage);
                pixel_capacity = frame.pixel_capacity;
                pixel_required = payload_size front.view;
              },
              some front,
              record c { queue = rest },
            )
      ]
]

-- The arguments that it refuses.
abbrev pub bad_frame : LegacyFrame → Bool
bad_frame frame = not (is_some frame.pixels) && not (frame.pixel_capacity == 0)

-- `ams_mel_ir_stream_receive_snapshot`; the frame moves into the snapshot with its wrapper.
unfoldable pub receive_snapshot : CallbackState → Status × Option QueuedFrame × CallbackState
receive_snapshot c = elim c.queue [
  | [] ↦ (empty_status c.lifecycle, none, c)
  | front ∷ rest ↦ (ok, some front, record c { queue = rest })
]

-- The predicate of their `wait_for`.
abbrev pub frame_ready : CallbackState → Bool
frame_ready c = elim c.queue [ [] ↦ terminal c.lifecycle | front ∷ rest ↦ true ]

pub take_all : (xs : List ℕ) (ys : List ℕ) → take (length xs) (xs ++ ys) ≡ xs
take_all [] ys = refl
take_all (x ∷ xs) ys = ap (◌∷◌ x) (take_all xs ys)

-- A buffer that is too small, or none.
pub receive_small :
    (memory : ℕ → ℕ → List ℕ) (frame : LegacyFrame) (c : CallbackState) (front : QueuedFrame)
    (rest : List QueuedFrame)
    → c.queue ≡ front ∷ rest
    → frame.pixel_capacity < payload_size front.view
    → receive_frame memory frame c
      ≡ (buffer_too_small, record frame { pixel_required = payload_size front.view }, none, c)
unfolding receive_frame
receive_small memory frame c front rest q small = elim (Option-cases frame.pixels) [
  | inl null ↦ ground arith
  | inr (old, there) ↦ ground arith
]

pub receive_large :
    (memory : ℕ → ℕ → List ℕ) (frame : LegacyFrame) (storage : List ℕ) (c : CallbackState)
    (front : QueuedFrame) (rest : List QueuedFrame)
    → c.queue ≡ front ∷ rest
    → frame.pixels ≡ some storage
    → payload_size front.view ≤ frame.pixel_capacity
    → receive_frame memory frame c ≡ (
      ok,
      record {
        fields = legacy_fields (metadata front.view);
        pixels = some (overwrite (memory (payload front.view) (payload_size front.view)) storage);
        pixel_capacity = frame.pixel_capacity;
        pixel_required = payload_size front.view;
      },
      some front,
      record c { queue = rest },
    )
unfolding receive_frame
receive_large memory frame storage c front rest q p large = ground arith
