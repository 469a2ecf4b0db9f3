-- ===== src/RfData.antt =====
-- native/src/rf_data.cpp: the RF DataMEL owner, RfChildClaim, `rf_finish_shutdown`, and the entry
-- points that open and close the owner, read its version and quantize a duration.
pub mod Laws
pub mod Snapshots
pub mod Copied
pub mod Modes
use ams_gra_mel_bridge.Prelude.{
  ℕ, ◌+◌, Bool, true, false, ◌&&◌, ◌||◌, not, Option, none, some, List, [], if◌then◌else◌, is_some,
  codes,
}
use ams_gra_mel_bridge.Utf8.{valid_utf8}
use ams_gra_mel_bridge.Diagnostic.{Diagnostic, write_diagnostic, clear_diagnostic, bad_diagnostic}
use ams_gra_mel_bridge.Provider.{
  Status, ok, invalid_argument, provider_exception, internal_error, Fault, Call, returned, threw,
  exception_text, is_empty, translate_provider_exception,
}
use ams_gra_mel_bridge.Version.{
  VersionInfo, ProviderVersion, publish_provider_version, valid_provider_version_output,
}
use ams_gra_mel_bridge.RfParent.{
  Parent, opened_parent, ShutdownOutcome, no_outcome, retain_forever, release_locked, close_locked,
  Family,
}
use ams_gra_mel_bridge.RfParent.Open.{RfProvider, OpenArguments, open_family}

-- The text kept of a throwing `shutdown()`. `bad_alloc_what` is what the standard library's
-- `std::bad_alloc` says of itself, which is caught as a `std::exception` here.
pub shutdown_text : List ℕ → Fault → List ℕ
shutdown_text bad_alloc_what Fault.bad_alloc =
    exception_text (some bad_alloc_what) (codes "provider shutdown exception")
shutdown_text bad_alloc_what (Fault.exception what) =
    exception_text what (codes "provider shutdown exception")
shutdown_text bad_alloc_what Fault.unknown = codes "unknown provider shutdown exception"

abbrev failed_shutdown : List ℕ → Parent → ShutdownOutcome × Parent
failed_shutdown text p = (
  record { status = provider_exception; message = text },
  record (retain_forever p) { shutdowns = p.shutdowns + 1 },
)

unfoldable pub rf_finish_shutdown : List ℕ → Call (Unit {0}) → Parent → ShutdownOutcome × Parent
unfolding shutdown_text
rf_finish_shutdown bad_alloc_what shutdown p =
    if not p.provider then (no_outcome, p) else elim shutdown [
      | returned _ ↦
          (no_outcome, record p { shutdowns = p.shutdowns + 1; provider = false; library = false })
      | threw f ↦ failed_shutdown (shutdown_text bad_alloc_what f) p
    ]

-- `RfChildClaim::acquire` under the parent's mutex.
unfoldable pub acquire_locked : Parent → Bool × Parent
acquire_locked p =
    if p.close_requested || p.shutdown_started
    then (false, p)
    else (true, record p { children = p.children + 1 })

abbrev pub data_family : List ℕ → Family
data_family bad_alloc_what = record {
  acquire = acquire_locked;
  finish = rf_finish_shutdown bad_alloc_what;
}

-- `RfChildClaim::acquire`: `held` is whether the output claim holds a parent already, `locks`
-- whether the mutex can be locked. The result, the claim and the parent.
unfoldable pub acquire_child : Bool → Bool → Parent → Bool × Bool × Parent
unfolding acquire_locked
acquire_child held locks p =
    let (granted, p') = acquire_locked p in
    if held || not locks then (false, held, p) else (granted, granted, p')

-- `RfChildClaim::release`, which leaves the claim empty.
unfoldable pub release_child :
    List ℕ → Bool → Bool → Call (Unit {0}) → Parent → ShutdownOutcome × Parent
unfolding rf_finish_shutdown
release_child bad_alloc_what held locks shutdown p =
    let (now, p') = release_locked p in
    if not held
    then (no_outcome, p)
    else if not locks
    then (record { status = internal_error; message = [] }, retain_forever p)
    else if now
    then rf_finish_shutdown bad_alloc_what shutdown p'
    else (no_outcome, p')

pub rf_data_open :
    RfProvider → OpenArguments Parent → Diagnostic → Status × Option Parent × Diagnostic
rf_data_open =
    open_family opened_parent (codes "createDataMEL") (codes "createDataMEL returned null")

-- The texts of `ams_mel_rf_data_close` after a shutdown that ran.
abbrev close_diagnostic : ShutdownOutcome → Diagnostic → Diagnostic
close_diagnostic outcome d = elim outcome.status [
  | ok ↦ d
  | _ ↦
      write_diagnostic
        (if is_empty outcome.message
          then codes "unknown provider shutdown exception"
          else outcome.message)
        d
]

-- What Close does with the state it has taken out of the owner: the status, the parent, the text.
pub close_parent :
    List ℕ → Bool → Call (Unit {0}) → Parent → Diagnostic → Status × Parent × Diagnostic
unfolding rf_finish_shutdown
close_parent bad_alloc_what locks shutdown p d =
    let (now, p') = close_locked p in
    let (outcome, done) = rf_finish_shutdown bad_alloc_what shutdown p' in
    if not p.provider
    then (ok, p, d)
    else if not locks
    then (
      internal_error,
      retain_forever p,
      write_diagnostic (codes "RF Data close lifecycle failure; provider graph retained") d,
    )
    else if now
    then (outcome.status, done, close_diagnostic outcome d)
    else (ok, p', d)

-- `ams_mel_rf_data_close`. The slot is `none` for a null pointer, and `some none` once it is
-- cleared; the parent goes on living with its children.
pub rf_data_close :
    List ℕ
    → Bool
    → Call (Unit {0})
    → Option (Option Parent)
    → Diagnostic
    → Status × Option (Option Parent) × Option Parent × Diagnostic
unfolding close_parent
rf_data_close bad_alloc_what locks shutdown none d =
    (invalid_argument, none, none, write_diagnostic (codes "invalid argument") (clear_diagnostic d))
rf_data_close bad_alloc_what locks shutdown (some none) d =
    if bad_diagnostic d
    then (
      invalid_argument,
      some none,
      none,
      write_diagnostic (codes "invalid argument") (clear_diagnostic d),
    )
    else (ok, some none, none, clear_diagnostic d)
rf_data_close bad_alloc_what locks shutdown (some (some p)) d =
    let (s, p', d') = close_parent bad_alloc_what locks shutdown p (clear_diagnostic d) in
    if bad_diagnostic d
    then (
      invalid_argument,
      some (some p),
      some p,
      write_diagnostic (codes "invalid argument") (clear_diagnostic d),
    )
    else (s, some none, some p', d')

-- `data == nullptr || !data->state || !data->state->data`
abbrev pub no_provider : Option Parent → Bool
no_provider none = true
no_provider (some p) = not p.provider

-- `ams_mel_rf_data_get_provider_version`
pub rf_data_get_provider_version :
    Call VersionInfo
    → Option Parent
    → Option ProviderVersion
    → Diagnostic
    → Status × Option ProviderVersion × Diagnostic
rf_data_get_provider_version version owner none d =
    (invalid_argument, none, write_diagnostic (codes "invalid argument") (clear_diagnostic d))
rf_data_get_provider_version version owner (some out) d0 =
    let d = clear_diagnostic d0 in
    if no_provider owner || (bad_diagnostic d0 || not (valid_provider_version_output (some out)))
    then (invalid_argument, some out, write_diagnostic (codes "invalid argument") d)
    else elim version [
      | returned value ↦
          let (s, out', d') = publish_provider_version value out d in (s, some out', d')
      | threw f ↦
          let (s, d') =
            translate_provider_exception (codes "provider exception")
              (codes "unknown provider exception") f d in
          (s, some out, d')
    ]

-- `ams_mel_rf_data_quantize_duration`, over the provider's `quantizeDuration` (of 64-bit integers,
-- here a type of the caller's choice). `out` is the caller's slot.
pub rf_data_quantize_duration {ℓ} :
    {Femtoseconds : Type ℓ}
    → (Femtoseconds → Call Femtoseconds)
    → Option Parent
    → Femtoseconds
    → Option Femtoseconds
    → Diagnostic
    → Status × Option Femtoseconds × Diagnostic
rf_data_quantize_duration quantize owner duration out d0 =
    let d = clear_diagnostic d0 in
    if no_provider owner || (not (is_some out) || bad_diagnostic d0)
    then (invalid_argument, out, write_diagnostic (codes "invalid argument") d)
    else elim (quantize duration) [
      | returned result ↦ (ok, some result, d)
      | threw f ↦
          let (s, d') =
            translate_provider_exception (codes "provider quantizeDuration exception")
              (codes "unknown provider quantizeDuration exception") f d in
          (s, out, d')
    ]
