-- ===== src/IrStream/Queries.antt =====
-- native/src/ir_stream.cpp: the queries of a stream and of a snapshot, which change nothing.
use ams_gra_mel_bridge.Prelude.{
  Bool, true, false, not, ◌||◌, Option, none, some, [], if◌then◌else◌, is_some, codes,
}
use ams_gra_mel_bridge.Diagnostic.{Diagnostic, diagnostic, bad_diagnostic}
use ams_gra_mel_bridge.Provider.{
  Status, ok, invalid_argument, provider_failed, provider_exception, internal_error,
}
use ams_gra_mel_bridge.IrStream.Callback.{Lifecycle, attached, starting, running, Counters}
use ams_gra_mel_bridge.IrStream.Stream.{ImageStreamState}

-- `ams_mel_ir_stream_get_counters`: `locks` is whether the mutex can be locked.
unfoldable pub stream_get_counters :
    Bool
    → Option ImageStreamState
    → Option Counters
    → Diagnostic
    → Status × Option Counters × Diagnostic
stream_get_counters locks stream out d0 =
    let d = diagnostic [] d0 in
    elim stream [
      | none ↦ (invalid_argument, out, d)
      | some s ↦
          if not (is_some out) || bad_diagnostic d0
          then (invalid_argument, out, d)
          else if locks
          then (ok, some s.counters, d)
          else (internal_error, out, diagnostic (codes "counter query failed") d)
    ]

abbrev pub has_capability : Lifecycle → Bool
has_capability attached = true
has_capability starting = true
has_capability running = true
has_capability _ = false

-- `image_capability`, over `snapshot_capability` of ir_channel.cpp, which writes the slot and the text.
unfoldable pub image_capability :
    {C : Type 0}
    → Bool
    → (Diagnostic → Status × Option C × Diagnostic)
    → ImageStreamState
    → Option C
    → Diagnostic
    → Status × Option C × Diagnostic
image_capability locks capability s slot d =
    if not locks
    then (provider_exception, slot, diagnostic (codes "Image capability query failed") d)
    else if not s.channel || not (has_capability s.lifecycle)
    then (provider_failed, slot, d)
    else capability d

-- `ams_mel_ir_stream_get_capabilities`
unfoldable pub stream_get_capabilities :
    {C : Type 0}
    → Bool
    → (Diagnostic → Status × Option C × Diagnostic)
    → Option ImageStreamState
    → Option (Option C)
    → Diagnostic
    → Status × Option (Option C) × Diagnostic
unfolding image_capability
stream_get_capabilities locks capability stream slot d0 =
    let d = diagnostic [] d0 in
    elim stream [
      | none ↦ (invalid_argument, slot, d)
      | some s ↦ elim slot [
        | none ↦ (invalid_argument, none, d)
        | some (some snapshot) ↦ (invalid_argument, some (some snapshot), d)
        | some none ↦
            let (status, snapshot, d') = image_capability locks capability s none d in
            if bad_diagnostic d0
            then (invalid_argument, some none, d)
            else (status, some snapshot, d')
      ]
    ]

-- `ams_mel_ir_frame_snapshot_view` of a snapshot that shows a `V`.
unfoldable pub frame_snapshot_view :
    {V : Type 0}
    → Option V
    → Option (Option V)
    → Diagnostic
    → Status × Option (Option V) × Diagnostic
frame_snapshot_view snapshot view d0 =
    let d = diagnostic [] d0 in
    if not (is_some snapshot) || (not (is_some view) || bad_diagnostic d0)
    then (invalid_argument, view, d)
    else (ok, some snapshot, d)
