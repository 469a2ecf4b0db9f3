-- ===== src/Tests/Events.antt =====
-- A product of native/src/rf_product_rx.cpp with two small packets, and what is seen of it.
use ams_gra_mel_bridge.Prelude.{ℕ, ◌≡◌, refl, true, false, none, some, List, [], ◌∷◌, take, pos}
use ams_gra_mel_bridge.Diagnostic.{Diagnostic}
use ams_gra_mel_bridge.Provider.{ok, invalid_argument}
use ams_gra_mel_bridge.ProductRx.Pointing.{Pointing, PointingV1}
use ams_gra_mel_bridge.ProductRx.Event.{
  PacketSize, Format, JobDataPointer, Limits, Metadata, Event, RxConfig,
}
use ams_gra_mel_bridge.ProductRx.Views.{event_view}
use ams_gra_mel_bridge.ProductRx.Copies.{Copies}

abbrev no_text : Diagnostic
no_text = record { buffer = none; capacity = 0; required = none }

abbrev limits : Limits
limits = record {
  word_capacity = λ _. 16;
  byte_capacity = λ _. 64;
  max_count = λ _. 1000;
  max_points = 1000;
}

abbrev config : RxConfig
config = record {
  stabilization_enabled = true;
  associations_enabled = true;
  max_samples_per_event = 4;
  endpoint_id = 11;
  format = Format.vita PacketSize.small;
}

abbrev metadata : Metadata ℕ
metadata = record {
  user_defined_data = false;
  stab_points = Pointing.face_relative 1 2 ∷ [];
  receive_events_empty = true;
  associations = some (6 ∷ []);
  stream_ids = 1 ∷ 2 ∷ [];
  phase_coherence = true;
  scalars = record {
    mel_protocol_version_id = 1;
    va_definition_id = 2;
    va_instance_id = 3;
    job_details_id = 4;
    job_interval_id = 5;
    lf_type_id = 6;
    lf_instance_id = 7;
    first_rx_event_start_s = pos 8;
    first_rx_event_start_fs = pos 9;
  };
}

abbrev eight_words : List ℕ
eight_words = take 32 (
    0 ∷ 1 ∷ 2 ∷ 3 ∷ 4 ∷ 5 ∷ 6 ∷ 7 ∷ 8 ∷ 9 ∷ 10 ∷ 11 ∷ 12 ∷ 13 ∷ 14 ∷ 15 ∷ 16 ∷ 17 ∷ 18 ∷ 19 ∷ 20
    ∷ 21 ∷ 22 ∷ 23 ∷ 24 ∷ 25 ∷ 26 ∷ 27 ∷ 28 ∷ 29 ∷ 30 ∷ 31 ∷ [])

abbrev pointer : JobDataPointer
pointer =
    JobDataPointer.packets PacketSize.small true
      (some (record { valid = true; words = 8; storage = eight_words } ∷ []))

abbrev event : Event ℕ
event = record {
  format = Format.vita PacketSize.small;
  endpoint_id = 11;
  direct_i8 = [];
  direct_i16 = [];
  samples_i8 = [];
  samples = [];
  packet_bytes = eight_words ∷ [];
  stream_ids = 1 ∷ 2 ∷ [];
  phase_coherence = 1;
  scalars = metadata.scalars;
  has_associations = true;
  association_ids = 6 ∷ [];
  stabilization_points = PointingV1.face_relative_v1 1 2 ∷ [];
}

-- Only the last version shows the points.
seen : (event_view 9 (some event) true no_text).0 ≡ ok
unfolding event_view
seen = refl

unseen : (event_view 8 (some event) true no_text).0 ≡ invalid_argument
unfolding event_view
unseen = refl
