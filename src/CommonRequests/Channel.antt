-- ===== src/CommonRequests/Channel.antt =====
-- native/src/common_channel_requests.cpp: the view of a channel that all families share, which owns
-- nothing but a weak reference, and the requests through it.
use ams_gra_mel_bridge.Prelude.{
  Bool, true, false, not, ◌||◌, Option, none, some, [], if◌then◌else◌, is_some, codes,
}
use ams_gra_mel_bridge.Diagnostic.{Diagnostic, diagnostic, bad_diagnostic}
use ams_gra_mel_bridge.Provider.{Status, ok, invalid_argument, provider_failed, internal_error}
use ams_gra_mel_bridge.CommonRequests.{Circumstances, Sent, failed, ClaimFate, submit_common}

-- A caller's slot for a handle: `none` for a null pointer, and whether it is taken.
abbrev taken : {A : Type 0} → Option (Option A) → Bool
taken none = true
taken (some none) = false
taken (some (some a)) = true

-- `channel_from`: `source` is the family's access, `none` for a null owner.
unfoldable pub channel_from :
    {A : Type 0}
    → Bool
    → Option A
    → Option (Option A)
    → Diagnostic
    → Status × Option (Option A) × Diagnostic
channel_from allocates source slot d0 =
    let d = diagnostic [] d0 in
    if not (is_some source) || (taken slot || bad_diagnostic d0)
    then (invalid_argument, slot, d)
    else if allocates
    then (ok, some source, d)
    else (internal_error, slot, diagnostic (codes "Channel view allocation failed") d)

-- `ams_mel_ir_channel_get_capabilities`, over the family's own `capability`, which writes the slot
-- and the text.
unfoldable pub channel_get_capabilities :
    {A C : Type 0}
    → Bool
    → (Diagnostic → Status × Option C × Diagnostic)
    → Option A
    → Option (Option C)
    → Diagnostic
    → Status × Option (Option C) × Diagnostic
channel_get_capabilities alive capability channel slot d0 =
    let d = diagnostic [] d0 in
    let (status, snapshot, d') = capability d in
    if not (is_some channel) || (taken slot || bad_diagnostic d0)
    then (invalid_argument, slot, d)
    else if alive
    then (status, some snapshot, d')
    else (provider_failed, slot, diagnostic (codes "common channel is no longer available") d)

-- `ams_mel_ir_channel_close`
unfoldable pub channel_close :
    {A : Type 0} → Option (Option A) → Diagnostic → Status × Option (Option A) × Diagnostic
channel_close slot d0 =
    let d = diagnostic [] d0 in
    if not (is_some slot) || bad_diagnostic d0
    then (invalid_argument, slot, d)
    else (ok, some none, d)

-- `submit_common_keepalive`: the request's slot.
unfoldable pub submit_common_keepalive :
    {R : Type 0} → Circumstances → Option (Option R) → Diagnostic → Sent
submit_common_keepalive w slot d0 =
    let d = diagnostic [] d0 in
    if taken slot || bad_diagnostic d0
    then failed invalid_argument ClaimFate.unclaimed w.admission d
    else submit_common w d

-- `submit_common_comms`: whether there is a command, and whether the provider's message is built.
unfoldable pub submit_common_comms :
    {R : Type 0} → Bool → Bool → Circumstances → Option (Option R) → Diagnostic → Sent
submit_common_comms command prepares w slot d0 =
    let d = diagnostic [] d0 in
    if not command || (taken slot || bad_diagnostic d0)
    then failed invalid_argument ClaimFate.unclaimed w.admission d
    else if prepares
    then submit_common w d
    else failed internal_error ClaimFate.unclaimed w.admission
        (diagnostic (codes "CommsTest command preparation failed") d)

-- `ams_mel_ir_channel_send_keepalive` and `ams_mel_ir_channel_submit_comms_test`: whether there is
-- a view.
pub channel_send_keepalive :
    {R : Type 0} → Bool → Circumstances → Option (Option R) → Diagnostic → Sent
channel_send_keepalive channel w slot d =
    if channel
    then submit_common_keepalive w slot (diagnostic [] d)
    else failed invalid_argument ClaimFate.unclaimed w.admission (diagnostic [] d)

pub channel_submit_comms_test :
    {R : Type 0} → Bool → Bool → Bool → Circumstances → Option (Option R) → Diagnostic → Sent
channel_submit_comms_test channel command prepares w slot d =
    if channel
    then submit_common_comms command prepares w slot (diagnostic [] d)
    else failed invalid_argument ClaimFate.unclaimed w.admission (diagnostic [] d)
