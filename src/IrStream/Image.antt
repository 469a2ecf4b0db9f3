-- ===== src/IrStream/Image.antt =====
-- native/src/ir_stream.cpp, CallbackState::image: the checks of a frame against the registered host
-- bytes.
use ams_gra_mel_bridge.Prelude.{
  ℕ, ◌+◌, ◌-◌, ◌*◌, ◌/◌, ◌%◌, ◌^◌, ◌≤◌, ◌<◌, ◌≡◌, refl, sym, ◌∙◌, subst, ◌⊎◌, inl, inr, Bool, true,
  false, not, ◌&&◌, ◌||◌, Option, none, some, List, [], ◌∷◌, map, arith, ltb, leb, ◌==◌,
  if◌then◌else◌, Bool-cases, Option-cases, ℤ, pos, negsuc, size_max, All,
}
use ams_gra_mel_bridge.IrStream.Frame.{
  Metadata, FrameHeader, FrameView, frame_view, snapshot_frame, with_nav, copy_nav, OrientationV1,
  snapshot_frame-some,
}
use ams_gra_mel_bridge.IrStream.Copied.{IsCopy, with_nav-IsCopy}
use ams_gra_mel_bridge.Utf8.{valid_utf8}

-- A range of host bytes that Start has registered.
pub record HostRange : Type 0 where
  pub base : ℕ
  pub size : ℕ

-- What the wrapper answers: two addresses, 0 for null, and a signed size.
pub record BufferAnswer : Type 0 where
  pub buffer_address : ℕ
  pub image_address : ℕ
  pub buffer_size : ℤ

-- `irmel::PixelFormat::Mono`
abbrev pub mono : ℕ
mono = 0

-- `width * height` in `std::size_t`.
abbrev pub image_bytes : FrameHeader → ℕ
image_bytes h = (h.width * h.height) % 2 ^ 64

abbrev pub unsupported : FrameHeader → Bool
unsupported h =
    h.width == 0
    || h.height == 0
    || not (h.bits_per_pixel == 8)
    || not (h.number_of_bands == 1)
    || not (h.pixel_format == mono)
    || ltb 2 h.image_type
    || ltb 3 h.image_flip

-- The loop over the registered ranges.
unfoldable pub registered : ℕ → ℕ → List HostRange → Bool
registered base size [] = false
registered base size (range ∷ rest) =
    (range.base == base && leb size range.size) || registered base size rest

unfoldable pub check_range : ℕ → ℕ → ℕ → ℕ → List HostRange → Bool
check_range base image size bytes ranges = not (
    ltb (size_max - base) size
    || not (registered base size ranges)
    || ltb image base
    || ltb (base + size) image
    || ltb (base + size - image) bytes)

-- The image's address and length of a frame that passes all checks.
unfoldable pub check_image : FrameHeader → BufferAnswer → List HostRange → Option (ℕ × ℕ)
check_image h b ranges =
    if unsupported h
    then none
    else if ltb (size_max / h.width) h.height
    then none
    else if b.buffer_address == 0 || b.image_address == 0
    then none
    else elim b.buffer_size [
      | negsuc n ↦ none
      | pos size ↦
          if check_range b.buffer_address b.image_address size (image_bytes h) ranges
          then some (b.image_address, image_bytes h)
          else none
    ]

-- What `image` gives to its last critical section; `copies` is whether the getters return and memory
-- is found.
unfoldable pub image_view : Bool → FrameHeader → BufferAnswer → List HostRange → Option FrameView
image_view copies h b ranges = elim (check_image h b ranges) [
  | none ↦ none
  | some (pixels, bytes) ↦ if copies then snapshot_frame h pixels bytes else none
]

-- These bytes lie in one of the ranges.
abbrev pub Within : ℕ → ℕ → List HostRange → Type 0
Within address bytes [] = ⊥
Within address bytes (range ∷ rest) =
    ((range.base ≤ address) × (address + bytes ≤ range.base + range.size))
    ⊎ Within address bytes rest

registered-Within :
    (base image size bytes : ℕ) (ranges : List HostRange)
    → registered base size ranges ≡ true
    → base ≤ image
    → image + bytes ≤ base + size
    → Within image bytes ranges
unfolding registered
registered-Within base image size bytes [] h lo hi = absurd (let no_range : ⊥ = cc in no_range)
registered-Within base image size bytes (range ∷ rest) h lo hi =
    elim (Bool-cases (registered base size rest)) [
      | inl later ↦ inr (registered-Within base image size bytes rest later lo hi)
      | inr never ↦ inl (ground arith, ground arith)
    ]

le-of-div : (w h m : ℕ) → 0 < w → h ≤ m / w → w * h ≤ m
le-of-div w h m p q = grind arith

-- The product of the sizes is not cut off.
no_overflow : (w h : ℕ) → 0 < w → h ≤ size_max / w → (w * h) % 2 ^ 64 ≡ w * h
no_overflow w h p q = omega (arith, le-of-div w h size_max p q)

mul_pos : (w h : ℕ) → 0 < w → 0 < h → 0 < w * h
mul_pos w h p q = grind arith

-- A range that is found is at the wrapper's address, and the sums do not wrap around.
check_range-Within :
    (base image size bytes : ℕ) (ranges : List HostRange)
    → base ≤ size_max
    → check_range base image size bytes ranges ≡ true
    → (image + bytes ≤ size_max) × Within image bytes ranges
unfolding check_range
check_range-Within base image size bytes ranges fits e = (
  ground arith,
  registered-Within base image size bytes ranges (ground arith) (ground arith) (ground arith),
)

check_image-some :
    (h : FrameHeader) (b : BufferAnswer) (ranges : List HostRange) (z : ℤ) {pixels bytes : ℕ}
    → b.buffer_size ≡ z
    → b.buffer_address ≤ size_max
    → check_image h b ranges ≡ some (pixels, bytes)
    → (0 < h.width)
      × (0 < h.height)
      × (bytes ≡ h.width * h.height)
      × (pixels + bytes ≤ size_max)
      × Within pixels bytes ranges
unfolding check_image
check_image-some h b ranges (negsuc n) z fits e = absurd (ground arith)
check_image-some h b ranges (pos size) {pixels} {bytes} z fits e =
    let passed : check_range b.buffer_address b.image_address size (image_bytes h) ranges ≡ true =
      ground arith in
    let inside =
      check_range-Within b.buffer_address b.image_address size (image_bytes h) ranges fits passed in
    let at : b.image_address ≡ pixels = ground arith in
    let long : image_bytes h ≡ bytes = ground arith in
    (
      ground arith,
      ground arith,
      sym long ∙ no_overflow h.width h.height (ground arith) (ground arith),
      ground arith,
      subst (λ n. Within pixels n ranges) long
          (subst (λ a. Within a (image_bytes h) ranges) at inside.1),
    )

check_image-supported :
    (h : FrameHeader) (b : BufferAnswer) (ranges : List HostRange) {shown : ℕ × ℕ}
    → check_image h b ranges ≡ some shown
    → (h.bits_per_pixel ≡ 8) × (h.number_of_bands ≡ 1) × (h.pixel_format ≡ mono)
unfolding check_image
check_image-supported h b ranges e = ground arith

-- A frame that may be queued shows only registered host bytes, and is an exact copy: its pixels are
-- `width * height` bytes, at least one, that lie within a range that Start has registered, with no
-- sum or product cut off; its metadata are the header's, field by field, with each orientation under
-- its kind; it has 8 bits per pixel and one band, in the format Mono; and its strings, its image type, flip and flags and the coordinate systems are valid.
pub image_view-some :
    (copies : Bool) (h : FrameHeader) (b : BufferAnswer) (ranges : List HostRange)
    (m : Metadata OrientationV1) (pixels bytes : ℕ)
    → b.buffer_address ≤ size_max
    → image_view copies h b ranges ≡ some (frame_view m pixels bytes)
    → (0 < bytes)
      × (bytes ≡ h.width * h.height)
      × (pixels + bytes ≤ size_max)
      × Within pixels bytes ranges
      × IsCopy h m
      × (h.bits_per_pixel ≡ 8)
      × (h.number_of_bands ≡ 1)
      × (h.pixel_format ≡ mono)
      × (h.image_type ≤ 2)
      × (h.image_flip ≤ 3)
      × (valid_utf8 h.location_key true ≡ true)
      × (valid_utf8 h.location_system_name true ≡ true)
      × All (λ f. f ≤ 3) h.flags
      × All (λ n. n.coordinate_system ≤ 3) h.nav
unfolding image_view
image_view-some copies h b ranges m pixels bytes fits e =
    elim (Option-cases (check_image h b ranges)) [
      | inl refused ↦ absurd (ground arith)
      | inr ((p, n), c) ↦
          let made : snapshot_frame h p n ≡ some (frame_view m pixels bytes) = ground arith in
          let copied = snapshot_frame-some h p n made in
          let inside = check_image-some h b ranges b.buffer_size refl fits c in
          let at : p ≡ pixels = ground (arith, copied.0) in
          let same : with_nav h (map copy_nav h.nav) ≡ m = ground (arith, copied.0) in
          let long : n ≡ bytes = ground (arith, copied.0) in
          (
            ground (arith, mul_pos h.width h.height inside.0 inside.1),
            sym long ∙ inside.2,
            ground (arith, inside.3),
            subst (λ k. Within pixels k ranges) long (subst (λ a. Within a n ranges) at inside.4),
            subst (IsCopy h) same (with_nav-IsCopy h),
            (check_image-supported h b ranges c).0,
            (check_image-supported h b ranges c).1,
            (check_image-supported h b ranges c).2,
            copied.1,
            copied.2,
            copied.3,
            copied.4,
            copied.5,
            copied.6,
          )
    ]
