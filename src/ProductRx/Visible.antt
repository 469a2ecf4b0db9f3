-- ===== src/ProductRx/Visible.antt =====
-- The nine views of an event of native/src/rf_product_rx.cpp hide nothing of it.
use ams_gra_mel_bridge.Prelude.{ℕ, ◌≡◌, ◌≤◌, ◌⊎◌, Bool, true, some, [], arith}
use ams_gra_mel_bridge.Diagnostic.{Diagnostic}
use ams_gra_mel_bridge.Provider.{ok}
use ams_gra_mel_bridge.ProductRx.Callback.{accepted}
use ams_gra_mel_bridge.ProductRx.Event.{
  PacketSize, Format, JobDataPointer, Limits, Metadata, Event, RxConfig, build_event,
}
use ams_gra_mel_bridge.ProductRx.Copies.{Copies, build_event-Copies}
use ams_gra_mel_bridge.ProductRx.Views.{event_view}

-- The first version whose view shows the packets of a format.
abbrev first_version : Format → ℕ
first_version (Format.vita PacketSize.small) = 4
first_version (Format.vita PacketSize.medium) = 5
first_version (Format.vita PacketSize.large) = 6
first_version (Format.vita PacketSize.extra_large) = 7
first_version _ = 1

module _ {R : Type 0} where
  -- All that an event holds and the view of a version does not show is empty.
  pub record Visible (version : ℕ) (e : Event R) : Type 0 where
    pub complex8 : (2 ≤ version) ⊎ (e.samples_i8 ≡ [])
    pub direct8 : (3 ≤ version) ⊎ (e.direct_i8 ≡ [])
    pub direct16 : (3 ≤ version) ⊎ (e.direct_i16 ≡ [])
    pub packets : (first_version e.format ≤ version) ⊎ (e.packet_bytes ≡ [])
    pub associations : (8 ≤ version) ⊎ (e.association_ids ≡ [])
    pub points : (9 ≤ version) ⊎ (e.stabilization_points ≡ [])

  Copies-Visible :
      (l : Limits) (pointer : JobDataPointer) (count : ℕ) (e : Event R) (version : ℕ)
      (d : Diagnostic)
      → Copies l pointer count e
      → 1 ≤ version
      → (event_view version (some e) true d).0 ≡ ok
      → Visible version e
  unfolding event_view
  Copies-Visible l (JobDataPointer.int8 source) count e version d c v h = ground arith
  Copies-Visible l (JobDataPointer.int16 source) count e version d c v h = ground arith
  Copies-Visible l (JobDataPointer.complex8 source) count e version d c v h = ground arith
  Copies-Visible l (JobDataPointer.complex16 source) count e version d c v h = ground arith
  Copies-Visible l (JobDataPointer.packets PacketSize.small a source) count e version d c v h =
      ground arith
  Copies-Visible l (JobDataPointer.packets PacketSize.medium a source) count e version d c v h =
      ground arith
  Copies-Visible l (JobDataPointer.packets PacketSize.large a source) count e version d c v h =
      ground arith
  Copies-Visible l (JobDataPointer.packets PacketSize.extra_large a source) count e version d c v
        h =
      ground arith
  Copies-Visible l JobDataPointer.another count e version d c v h = elim c [ ]

  -- A view that is granted of an accepted event shows all that the event holds: a version that would
  -- hide samples, packets, associations or points is refused.
  pub event_view-Visible :
      (l : Limits) (allocates : Bool) (s : RxConfig) (m : Metadata R) (pointer : JobDataPointer)
      (count : ℕ) (e : Event R) (version : ℕ) (d : Diagnostic)
      → build_event l allocates s (some m) pointer count ≡ accepted e
      → 1 ≤ version
      → (event_view version (some e) true d).0 ≡ ok
      → Visible version e
  event_view-Visible l allocates s m pointer count e version d b v h =
      Copies-Visible l pointer count e version d
        (build_event-Copies l allocates s m pointer count e b).0 v h
