-- ===== src/ProductRx/Copies.antt =====
-- An event that `build_event` of native/src/rf_product_rx.cpp accepts is a copy of the product, and
-- each view of it hides nothing.
use ams_gra_mel_bridge.Prelude.{
  ℕ, ◌*◌, ◌≡◌, ◌≤◌, ◌∙◌, inl, inr, Bool, true, Option, none, some, List, [], ◌∷◌, length, take,
  is_some, arith, Option-cases,
}
use ams_gra_mel_bridge.ProductRx.Callback.{accepted}
use ams_gra_mel_bridge.ProductRx.Pointing.{PointingV1, copy_points}
use ams_gra_mel_bridge.ProductRx.Points.{AllPoints, copy_points-AllPoints}
use ams_gra_mel_bridge.ProductRx.Event.{
  PacketSize, Format, Packet, JobDataPointer, Limits, Metadata, Event, RxConfig, Selected,
  select_source, select_packet_source, select_data, copy_packet, copy_packets, copy_selected,
  build_event, blank,
}

abbrev pub memory : {A : Type 0} → Option (List A) → List A
memory none = []
memory (some elements) = elements

-- The bytes of a packet in an event: as many words as its view says, at least 8 and within the
-- capacity and the storage.
pub record IsCopy (l : Limits) (size : PacketSize) (packet : Packet) (bytes : List ℕ) : Type 0 where
  pub copied : bytes ≡ take (packet.words * 4) packet.storage
  pub valid : packet.valid ≡ true
  pub header : 8 ≤ packet.words
  pub words : packet.words ≤ l.word_capacity size
  pub inside : packet.words * 4 ≤ length packet.storage

abbrev pub AllCopies : Limits → PacketSize → List Packet → List (List ℕ) → Type 0
AllCopies l size [] [] = Unit
AllCopies l size (packet ∷ rest) (bytes ∷ more) =
    IsCopy l size packet bytes × AllCopies l size rest more
AllCopies l size _ _ = ⊥

module _ {R : Type 0} where
  -- Which storage of the event holds the first `count` elements behind the pointer, by alternative;
  -- all other storage is empty.
  abbrev pub Copies : Limits → JobDataPointer → ℕ → Event R → Type 0
  Copies l (JobDataPointer.int8 source) count e =
      (e.format ≡ Format.direct_int8)
      × (e.direct_i8 ≡ take count (memory source))
      × (e.direct_i16 ≡ [])
      × (e.samples_i8 ≡ [])
      × (e.samples ≡ [])
      × (e.packet_bytes ≡ [])
  Copies l (JobDataPointer.int16 source) count e =
      (e.format ≡ Format.direct_int16)
      × (e.direct_i8 ≡ [])
      × (e.direct_i16 ≡ take count (memory source))
      × (e.samples_i8 ≡ [])
      × (e.samples ≡ [])
      × (e.packet_bytes ≡ [])
  Copies l (JobDataPointer.complex8 source) count e =
      (e.format ≡ Format.complex_int8)
      × (e.direct_i8 ≡ [])
      × (e.direct_i16 ≡ [])
      × (e.samples_i8 ≡ take count (memory source))
      × (e.samples ≡ [])
      × (e.packet_bytes ≡ [])
  Copies l (JobDataPointer.complex16 source) count e =
      (e.format ≡ Format.complex_int16)
      × (e.direct_i8 ≡ [])
      × (e.direct_i16 ≡ [])
      × (e.samples_i8 ≡ [])
      × (e.samples ≡ take count (memory source))
      × (e.packet_bytes ≡ [])
  Copies l (JobDataPointer.packets size addressable source) count e =
      (e.format ≡ Format.vita size)
      × (e.direct_i8 ≡ [])
      × (e.direct_i16 ≡ [])
      × (e.samples_i8 ≡ [])
      × (e.samples ≡ [])
      × AllCopies l size (take count (memory source)) e.packet_bytes
  Copies l JobDataPointer.another count e = ⊥

copy_packet-IsCopy :
    (l : Limits) (size : PacketSize) (packet : Packet) (bytes : List ℕ)
    → copy_packet l size packet ≡ some bytes
    → IsCopy l size packet bytes
unfolding copy_packet
copy_packet-IsCopy l size packet bytes e = ground arith

copy_packets-AllCopies :
    (l : Limits) (size : PacketSize) (packets : List Packet) (all : List (List ℕ))
    → copy_packets l size packets ≡ some all
    → AllCopies l size packets all
unfolding copy_packets
copy_packets-AllCopies l size [] [] e = tt
copy_packets-AllCopies l size [] (bytes ∷ more) e = cc
copy_packets-AllCopies l size (packet ∷ rest) all e =
    elim (Option-cases (copy_packet l size packet)) [
      | inl bad ↦ absurd (ground arith)
      | inr (bytes, got) ↦ elim (Option-cases (copy_packets l size rest)) [
        | inl bad ↦ absurd (ground arith)
        | inr (more, got_more) ↦
            let whole : all ≡ bytes ∷ more = ground arith in
            rw whole (
              copy_packet-IsCopy l size packet bytes got,
              copy_packets-AllCopies l size rest more got_more,
            )
      ]
    ]

module _ {R : Type 0} (l : Limits) (s : RxConfig) (m : Metadata R) (count : ℕ) where
  -- The stages of an accepted event.
  pub record Stages (pointer : JobDataPointer) (e : Event R) : Type 0 where
    pub source : Selected
    pub copied : Event R
    pub points : List (PointingV1 R)
    pub selects : select_data l s.format pointer count ≡ some source
    pub copies : copy_selected l count source (blank s m) ≡ some copied
    pub pointings : copy_points m.stab_points ≡ some points
    pub bounded : count ≤ s.max_samples_per_event
    pub whole : e ≡ record copied { stabilization_points = points }

  build_event-Stages :
      (allocates : Bool) (pointer : JobDataPointer) (e : Event R)
      → build_event l allocates s (some m) pointer count ≡ accepted e
      → Stages pointer e
  unfolding build_event
  build_event-Stages allocates pointer e h =
      elim (Option-cases (select_data l s.format pointer count)) [
        | inl bad ↦ absurd (ground arith)
        | inr (source, selects) ↦ elim (Option-cases (copy_selected l count source (blank s m))) [
          | inl bad ↦ absurd (ground arith)
          | inr (copied, copies) ↦ elim (Option-cases (copy_points m.stab_points)) [
            | inl bad ↦ absurd (ground arith)
            | inr (points, pointings) ↦ record {
              source = source;
              copied = copied;
              points = points;
              selects = selects;
              copies = copies;
              pointings = pointings;
              bounded = ground arith;
              whole = ground arith;
            }
          ]
        ]
      ]

  select_data-packets :
      (size : PacketSize) (addressable : Bool) (source : Option (List Packet)) (chosen : Selected)
      → select_data l s.format (JobDataPointer.packets size addressable source) count ≡ some chosen
      → (chosen ≡ Selected.from_packets size (memory source)) × (s.format ≡ Format.vita size)
  unfolding select_data select_packet_source select_source
  select_data-packets size addressable source chosen e = ground arith

  copy_selected-packets :
      (size : PacketSize) (packets : List Packet) (copied : Event R)
      → copy_selected l count (Selected.from_packets size packets) (blank s m) ≡ some copied
      → (copy_packets l size (take count packets) ≡ some copied.packet_bytes)
        × (copied.format ≡ s.format)
        × (copied.direct_i8 ≡ [])
        × (copied.direct_i16 ≡ [])
        × (copied.samples_i8 ≡ [])
        × (copied.samples ≡ [])
  unfolding copy_selected
  copy_selected-packets size packets copied e =
      elim (Option-cases (copy_packets l size (take count packets))) [
        | inl bad ↦ absurd (ground arith)
        | inr (bytes, got) ↦ ground arith
      ]

  Stages-Copies :
      (pointer : JobDataPointer) (e : Event R) → Stages pointer e → Copies l pointer count e
  unfolding select_data select_source select_packet_source copy_selected
  Stages-Copies (JobDataPointer.int8 source) e v = ground arith
  Stages-Copies (JobDataPointer.int16 source) e v = ground arith
  Stages-Copies (JobDataPointer.complex8 source) e v = ground arith
  Stages-Copies (JobDataPointer.complex16 source) e v = ground arith
  Stages-Copies (JobDataPointer.packets size addressable source) e v =
      let (chosen, shape) = select_data-packets size addressable source v.source v.selects in
      let copies : copy_selected l count (Selected.from_packets size (memory source)) (blank s m)
          ≡ some v.copied =
        rw chosen at v.copies in
      let (got, f, a, b, c, d) = copy_selected-packets size (memory source) v.copied copies in
      rw v.whole
        (f ∙ shape, a, b, c, d, copy_packets-AllCopies l size (take count (memory source)) _ got)
  Stages-Copies JobDataPointer.another e v = absurd (ground arith)

copy_selected-metadata :
    {R : Type 0} (l : Limits) (count : ℕ) (source : Selected) (e copied : Event R)
    → copy_selected l count source e ≡ some copied
    → (copied.stream_ids ≡ e.stream_ids)
      × (copied.scalars ≡ e.scalars)
      × (copied.phase_coherence ≡ e.phase_coherence)
      × (copied.has_associations ≡ e.has_associations)
      × (copied.association_ids ≡ e.association_ids)
unfolding copy_selected
copy_selected-metadata l count source e copied h = ground arith

pub build_event-Copies :
    {R : Type 0} (l : Limits) (allocates : Bool) (s : RxConfig) (m : Metadata R)
    (pointer : JobDataPointer) (count : ℕ) (e : Event R)
    → build_event l allocates s (some m) pointer count ≡ accepted e
    → Copies l pointer count e
      × (e.stream_ids ≡ m.stream_ids)
      × (e.scalars ≡ m.scalars)
      × (e.has_associations ≡ is_some m.associations)
      × (e.association_ids ≡ memory m.associations)
      × AllPoints m.stab_points e.stabilization_points
      × (count ≤ s.max_samples_per_event)
build_event-Copies l allocates s m pointer count e h =
    let v = build_event-Stages l s m count allocates pointer e h in
    let (ids, scalars, _, has, assoc) =
      copy_selected-metadata l count v.source (blank s m) v.copied v.copies in
    (
      Stages-Copies l s m count pointer e v,
      ground arith,
      ground arith,
      ground arith,
      ground arith,
      rw v.whole (copy_points-AllPoints m.stab_points v.points v.pointings),
      v.bounded,
    )
