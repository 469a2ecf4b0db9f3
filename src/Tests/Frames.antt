-- ===== src/Tests/Frames.antt =====
-- A frame of native/src/ir_stream.cpp: two pixels in a buffer of four bytes.
use ams_gra_mel_bridge.Prelude.{
  ℕ, ◌*◌, ◌+◌, ◌<◌, ◌≤◌, ◌≡◌, refl, zero, suc, true, some, none, List, [], ◌∷◌, length, take, pos,
  size_max, All, arith, ap, replicate, ◌↔◌, ◌⊎◌,
}
use mathlib.Core.Option
use ams_gra_mel_bridge.Utf8.{scan, valid_utf8}
use ams_gra_mel_bridge.Provider.{ok, buffer_too_small}
use ams_gra_mel_bridge.IrStream.Frame.{
  Directional, FrameHeader, FrameView, frame_view, with_nav, copy_flags, copy_navs, snapshot_frame,
}
use ams_gra_mel_bridge.IrStream.Image.{
  HostRange, BufferAnswer, mono, registered, check_range, check_image, image_view, Within,
  image_view-some,
}
use ams_gra_mel_bridge.IrStream.Callback.{QueuedFrame}
use ams_gra_mel_bridge.IrStream.Receive.{LegacyFields, LegacyFrame, payload_size, receive_frame}
use ams_gra_mel_bridge.IrStream.Consume.{
  kept_reply, stream_receive, ShowsHeader, TakenBack, receive_twice,
}
use ams_gra_mel_bridge.IrStream.Copied.{IsCopy}
use ams_gra_mel_bridge.IrStream.Entry.{Answers}
use ams_gra_mel_bridge.IrStream.Opening.{fresh_stream}
use ams_gra_mel_bridge.IrStream.Stream.{ImageStreamState}

abbrev origin : Directional
origin = record { x = 0; y = 0; z = 0 }

abbrev header : FrameHeader
header = record {
  system_time_ns = pos 5;
  integration_time_ns = pos 6;
  width = 2;
  height = 1;
  bits_per_pixel = 8;
  number_of_bands = 1;
  horizontal_fov_rad = 0;
  vertical_fov_rad = 0;
  offset_m = origin;
  location_key = 107 ∷ [];
  location_system_name = [];
  sensor_id = 3;
  pixel_format = 0;
  frame_id = 4;
  subframe_id = 0;
  subframe_total = 1;
  image_type = 0;
  image_flip = 1;
  flags = 0 ∷ 2 ∷ [];
  dither_row = 0;
  dither_column = 0;
  row_offset = 0;
  column_offset = 0;
  inertial = [];
  nav = [];
  band_index = 0;
}

abbrev answer : BufferAnswer
answer = record { buffer_address = 4096; image_address = 4097; buffer_size = pos 4 }

abbrev ranges : List HostRange
ranges = (record { base = 4096; size = 4 }) ∷ []

abbrev pub view : FrameView
view = frame_view (with_nav header []) 4097 2

is_shown : image_view true header answer ranges ≡ some view
unfolding image_view check_image check_range registered snapshot_frame valid_utf8 scan copy_flags
    copy_navs
is_shown = refl

image_view-some_example :
    (0 < 2)
    × (2 ≡ header.width * header.height)
    × (4097 + 2 ≤ size_max)
    × Within 4097 2 ranges
    × IsCopy header (with_nav header [])
    × (header.bits_per_pixel ≡ 8)
    × (header.number_of_bands ≡ 1)
    × (header.pixel_format ≡ mono)
    × (header.image_type ≤ 2)
    × (header.image_flip ≤ 3)
    × (valid_utf8 header.location_key true ≡ true)
    × (valid_utf8 header.location_system_name true ≡ true)
    × All (λ f. f ≤ 3) header.flags
    × All (λ n. n.coordinate_system ≤ 3) header.nav
image_view-some_example =
    image_view-some true header answer ranges (with_nav header []) 4097 2 (omega arith) is_shown

abbrev pub queued_view : QueuedFrame
queued_view = record { held = record { buffer = 7; slot = 0 }; view = view }

abbrev one_waits : ImageStreamState
one_waits = record (fresh_stream 1) {
  callback = record (fresh_stream 1).callback {
    queue = queued_view ∷ [];
    retained_frames = 1;
    free_uncertain_slots = 0 ∷ [];
  };
}

abbrev no_fields : LegacyFields
no_fields = record {
  system_time_ns = pos 0;
  integration_time_ns = pos 0;
  width = 0;
  height = 0;
  bits_per_pixel = 0;
  number_of_bands = 0;
  horizontal_fov_rad = 0;
  vertical_fov_rad = 0;
  pixel_format = 0;
  frame_id = 0;
  subframe_id = 0;
  subframe_total = 0;
  image_type = 0;
  image_flip = 0;
  image_flags = 0;
  dither_row = 0;
  dither_column = 0;
  row_offset = 0;
  column_offset = 0;
  band_index = 0;
}

abbrev asks : LegacyFrame
asks = record { fields = no_fields; pixels = none; pixel_capacity = 0; pixel_required = 0 }

abbrev storage : List ℕ
storage = 0 ∷ 0 ∷ 0 ∷ []

abbrev takes : LegacyFrame
takes = record asks { pixels = some storage; pixel_capacity = 3 }

-- Every byte of the memory is 9.
abbrev memory : ℕ → ℕ → List ℕ
memory address size = replicate size 9

memory-length : (a n : ℕ) → length (memory a n) ≡ n
unfolding replicate
memory-length a zero = refl
memory-length a (suc n) = ap suc (memory-length a n)

-- The provider takes every wrapper back.
abbrev kind : Answers
kind = record { releases = λ buffer. true; disables = true; detaches = true; parks = true }

receive_twice_example :
    let small = stream_receive memory kind asks one_waits in
    let large = stream_receive memory kind takes one_waits in
    (small.0 ≡ (buffer_too_small, []))
    × (small.2 ≡ one_waits)
    × (large.2.queue ≡ [])
    × (Option.map (take (payload_size view)) large.1.pixels ≡ some (memory 4097 2))
    × ShowsHeader (with_nav header []) large.1.fields
    × ((large.0.0 ≡ ok) ↔ TakenBack kind queued_view.held one_waits)
    × ((large.0 ≡ (ok, [])) ⊎ (large.0 ≡ kept_reply))
unfolding stream_receive receive_frame
receive_twice_example =
    receive_twice memory kind asks takes storage one_waits queued_view [] memory-length refl refl
      (omega arith) refl (omega arith)
