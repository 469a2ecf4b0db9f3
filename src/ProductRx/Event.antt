-- ===== src/ProductRx/Event.antt =====
-- native/src/rf_product_rx.cpp, `build_event`: what a callback copies of the provider's product.
-- A pointer is `none` when it is null, and else the memory from it on.
use ams_gra_mel_bridge.Prelude.{
  ℕ, ◌*◌, ◌/◌, Bool, true, false, ◌&&◌, ◌||◌, not, Option, none, some, List, [], ◌∷◌, length, take,
  ltb, leb, ◌==◌, if◌then◌else◌, is_some, size_max, ℤ,
}
use ams_gra_mel_bridge.ProductRx.Callback.{Built, accepted, malformed, allocation_failure}
use ams_gra_mel_bridge.ProductRx.Pointing.{Pointing, PointingV1, copy_points}

pub data PacketSize : Type 0 where
  small medium large extra_large : PacketSize

-- `rfmel::JobDataFormat`; `unsupported` is any of its other values.
pub data Format : Type 0 where
  direct_int8 direct_int16 complex_int8 complex_int16 unsupported : Format
  vita : PacketSize → Format

-- A packet of the provider: its view's `isValid()` and `getPacketSize()`, and its bytes.
pub record Packet : Type 0 where
  pub valid : Bool
  pub words : ℕ
  pub storage : List ℕ

-- `rfmel::JobDataPointer`, by its active alternative. Numbers are copied as they are. For packets,
-- `addressable` is whether the pointer is aligned and the array does not wrap around.
pub data JobDataPointer : Type 0 where
  int8 int16 : Option (List ℕ) → JobDataPointer
  complex8 complex16 : Option (List (ℕ × ℕ)) → JobDataPointer
  packets : PacketSize → Bool → Option (List Packet) → JobDataPointer
  another : JobDataPointer

-- The capacities of the packet types, which belong to the provider's interface, and the greatest
-- number of elements of a format that `max_size()` and `size_t` allow.
pub record Limits : Type 0 where
  pub word_capacity : PacketSize → ℕ
  pub byte_capacity : PacketSize → ℕ
  pub max_count : Format → ℕ
  pub max_points : ℕ

-- The numbers of the metadata that are copied verbatim, of `ams_mel_rf_product_rx_metadata_v1`.
pub record Scalars : Type 0 where
  pub mel_protocol_version_id : ℕ
  pub va_definition_id : ℕ
  pub va_instance_id : ℕ
  pub job_details_id : ℕ
  pub job_interval_id : ℕ
  pub lf_type_id : ℕ
  pub lf_instance_id : ℕ
  pub first_rx_event_start_s : ℤ
  pub first_rx_event_start_fs : ℤ

-- `rfmel::ProductRxMetadata`, as its getters answer.
pub record Metadata (R : Type 0) : Type 0 where
  pub user_defined_data : Bool
  pub stab_points : List (Pointing R)
  pub receive_events_empty : Bool
  pub associations : Option (List ℕ)
  pub stream_ids : List ℕ
  pub phase_coherence : Bool
  pub scalars : Scalars

-- `ams_mel_rf_product_rx_event`: the storage that it owns and that its views show.
pub record Event (R : Type 0) : Type 0 where
  pub format : Format
  pub endpoint_id : ℕ
  pub direct_i8 : List ℕ
  pub direct_i16 : List ℕ
  pub samples_i8 : List (ℕ × ℕ)
  pub samples : List (ℕ × ℕ)
  pub packet_bytes : List (List ℕ)
  pub stream_ids : List ℕ
  pub phase_coherence : ℕ
  pub scalars : Scalars
  pub has_associations : Bool
  pub association_ids : List ℕ
  pub stabilization_points : List (PointingV1 R)

-- The fields of RfRxCallbackState that do not change.
pub record RxConfig : Type 0 where
  pub stabilization_enabled : Bool
  pub associations_enabled : Bool
  pub max_samples_per_event : ℕ
  pub endpoint_id : ℕ
  pub format : Format

-- `select_source` once the alternative is the right one: the memory, `[]` for a null pointer that
-- nothing is read from.
unfoldable pub select_source : {A : Type 0} → ℕ → ℕ → Option (List A) → Option (List A)
select_source max_count count none = if (count == 0) && leb count max_count then some [] else none
select_source max_count count (some memory) = if leb count max_count then some memory else none

unfoldable pub select_packet_source : ℕ → ℕ → Bool → Option (List Packet) → Option (List Packet)
unfolding select_source
select_packet_source max_count count addressable source =
    if (count == 0) || addressable then select_source max_count count source else none

-- One pass of the loop of `copy_packets`.
unfoldable pub copy_packet : Limits → PacketSize → Packet → Option (List ℕ)
copy_packet l size packet =
    let bytes = packet.words * 4 in
    if not packet.valid
      || (ltb packet.words 8
          || (ltb (l.word_capacity size) packet.words || ltb (size_max / 4) packet.words))
      || (ltb (length packet.storage) bytes || ltb (l.byte_capacity size) bytes)
    then none
    else some (take bytes packet.storage)

unfoldable pub copy_packets : Limits → PacketSize → List Packet → Option (List (List ℕ))
unfolding copy_packet
copy_packets l size [] = some []
copy_packets l size (packet ∷ rest) =
    let copied = copy_packets l size rest in
    elim (copy_packet l size packet) [
      | none ↦ none
      | some bytes ↦ elim copied [ none ↦ none | some more ↦ some (bytes ∷ more) ]
    ]

abbrev same_size : PacketSize → PacketSize → Bool
same_size PacketSize.small PacketSize.small = true
same_size PacketSize.medium PacketSize.medium = true
same_size PacketSize.large PacketSize.large = true
same_size PacketSize.extra_large PacketSize.extra_large = true
same_size _ _ = false

abbrev is_vita : Format → Bool
is_vita (Format.vita size) = true
is_vita _ = false

abbrev pub is_nil : {A : Type 0} → List A → Bool
is_nil [] = true
is_nil (x ∷ xs) = false

-- The checks of the associations: dropped silently only when there is none.
unfoldable pub bad_associations : RxConfig → ℕ → Option (List ℕ) → Bool
bad_associations s count none = false
bad_associations s count (some ids) =
    if not s.associations_enabled || not (is_vita s.format)
    then not (is_nil ids)
    else not (length ids == count)

-- What the first `switch` finds to copy.
pub data Selected : Type 0 where
  from_int8 from_int16 : List ℕ → Selected
  from_complex8 from_complex16 : List (ℕ × ℕ) → Selected
  from_packets : PacketSize → List Packet → Selected

abbrev selected : {A : Type 0} → (A → Selected) → Option A → Option Selected
selected make none = none
selected make (some memory) = some (make memory)

-- The first `switch`: `none` is a wrong alternative, a null pointer or too many elements.
unfoldable pub select_data : Limits → Format → JobDataPointer → ℕ → Option Selected
unfolding select_source select_packet_source
select_data l Format.direct_int8 (JobDataPointer.int8 source) count =
    selected Selected.from_int8 (select_source (l.max_count Format.direct_int8) count source)
select_data l Format.direct_int16 (JobDataPointer.int16 source) count =
    selected Selected.from_int16 (select_source (l.max_count Format.direct_int16) count source)
select_data l Format.complex_int8 (JobDataPointer.complex8 source) count =
    selected Selected.from_complex8 (select_source (l.max_count Format.complex_int8) count source)
select_data l Format.complex_int16 (JobDataPointer.complex16 source) count =
    selected Selected.from_complex16 (select_source (l.max_count Format.complex_int16) count source)
select_data l (Format.vita size) (JobDataPointer.packets size' addressable source) count =
    if same_size size size'
    then selected (Selected.from_packets size)
        (select_packet_source (l.max_count (Format.vita size)) count addressable source)
    else none
select_data l _ _ count = none

module _ {R : Type 0} where
  -- The event before its data is copied in.
  abbrev pub blank : RxConfig → Metadata R → Event R
  blank s m = record {
    format = s.format;
    endpoint_id = s.endpoint_id;
    direct_i8 = [];
    direct_i16 = [];
    samples_i8 = [];
    samples = [];
    packet_bytes = [];
    stream_ids = m.stream_ids;
    phase_coherence = if m.phase_coherence then 1 else 0;
    scalars = m.scalars;
    has_associations = is_some m.associations;
    association_ids = elim m.associations [ none ↦ [] | some ids ↦ ids ];
    stabilization_points = [];
  }

  abbrev with_packets : Event R → Option (List (List ℕ)) → Option (Event R)
  with_packets e none = none
  with_packets e (some bytes) = some (record e { packet_bytes = bytes })

  -- The copy of the elements, of which the memory holds at least `count`.
  unfoldable pub copy_selected : Limits → ℕ → Selected → Event R → Option (Event R)
  unfolding copy_packets
  copy_selected l count (Selected.from_int8 memory) e =
      some (record e { direct_i8 = take count memory })
  copy_selected l count (Selected.from_int16 memory) e =
      some (record e { direct_i16 = take count memory })
  copy_selected l count (Selected.from_complex8 memory) e =
      some (record e { samples_i8 = take count memory })
  copy_selected l count (Selected.from_complex16 memory) e =
      some (record e { samples = take count memory })
  copy_selected l count (Selected.from_packets size memory) e =
      with_packets e (copy_packets l size (take count memory))

  -- What the event cannot carry is refused, not dropped.
  abbrev bad_metadata : Limits → RxConfig → Metadata R → ℕ → Bool
  bad_metadata l s m count =
      m.user_defined_data
      || ((not s.stabilization_enabled && not (is_nil m.stab_points))
          || (ltb l.max_points (length m.stab_points)
              || (not m.receive_events_empty || bad_associations s count m.associations)))

  -- `build_event`; `allocates` is whether its allocations succeed, of which the first comes after the
  -- checks of the arguments. The provider's getters answer: one that throws is a fault that
  -- `on_data_ready` catches.
  unfoldable pub build_event :
      Limits → Bool → RxConfig → Option (Metadata R) → JobDataPointer → ℕ → Built (Event R)
  unfolding select_data bad_associations copy_selected
  build_event l allocates s none data_pointer count = malformed
  build_event l allocates s (some m) data_pointer count =
      if ltb s.max_samples_per_event count
      then malformed
      else elim (select_data l s.format data_pointer count) [
        | none ↦ malformed
        | some source ↦
            if bad_metadata l s m count
            then malformed
            else if not allocates
            then allocation_failure
            else elim (copy_selected l count source (blank s m)) [
              | none ↦ malformed
              | some copied ↦ elim (copy_points m.stab_points) [
                | none ↦ malformed
                | some points ↦ accepted (record copied { stabilization_points = points })
              ]
            ]
      ]
