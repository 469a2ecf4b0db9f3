-- ===== src/Tests/Owners.antt =====
-- The RF owners of native/src/rf_admin.cpp and native/src/rf_data.cpp: the calls of a client on an
-- AdminMEL, and the snapshot of a DataMEL's array with one face.
use ams_gra_mel_bridge.Prelude.{
  ℕ, ◌==◌, if◌then◌else◌, List, true, false, none, some, [], ◌∷◌, pos, ltb,
}
use ams_gra_mel_bridge.Diagnostic.{Diagnostic}
use ams_gra_mel_bridge.Provider.{returned, threw, unknown}
use ams_gra_mel_bridge.RfAdmin.{Controls}
use ams_gra_mel_bridge.RfAdmin.Calls.{Request, command, close}
use ams_gra_mel_bridge.RfData.Snapshots.{FaceTimes, FaceAnswers, ProviderInfo}

abbrev no_text : Diagnostic
no_text = record { buffer = none; capacity = 0; required = none }

-- A provider that takes the states below 8.
abbrev controls : Controls
controls = record {
  get_uci_control = returned true;
  get_status_control = returned true;
  command_state = λ state. returned (ltb state 8);
}

-- Two commands, of which the second has no such state, a Close, and calls that come too late.
abbrev calls : List Request
calls =
    command controls 7 (some 0) no_text
    ∷ command controls 15 (some 0) no_text
    ∷ close (returned tt) no_text
    ∷ command controls 6 (some 0) no_text
    ∷ close (returned tt) no_text
    ∷ []

abbrev times : FaceTimes
times = record {
  agc_processing_time = pos 1;
  min_job_request_lead_time = pos 2;
  max_job_request_lead_time = pos 3;
  min_job_detail_lead_time = pos 4;
  tx_rx_switching_time = pos 5;
  rx_tx_switching_time = pos 6;
  tx_tx_switching_time = pos 7;
  rx_rx_switching_time = pos 8;
}

abbrev face : FaceAnswers ℕ
face = record {
  supports_receive = true;
  supports_transmit = false;
  requires_endpoint_association = true;
  times = times;
  rx_frequency_ranges = record { min_frequency = 10; max_frequency = 20 } ∷ [];
  tx_frequency_ranges = [];
  sample_frequency_range = record { min_frequency = 1; max_frequency = 2 } ∷ [];
}

-- It lists face 3, and throws for any other.
abbrev array : ProviderInfo ℕ
array = record {
  num_faces = returned 1;
  contains_open_additions = returned false;
  scheduler_resolution = returned (pos 9);
  max_context_bytes = returned 64;
  data_formats = returned (1 ∷ 4 ∷ []);
  face_ids = returned (3 ∷ []);
  face = λ id. if id == 3 then returned face else threw unknown;
}
