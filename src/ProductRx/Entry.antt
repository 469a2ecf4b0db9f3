-- ===== src/ProductRx/Entry.antt =====
-- native/src/rf_product_rx.cpp, the entry points over a request and an endpoint: Claim as a whole,
-- Close of either, Receive and the counters, with their arguments.
use ams_gra_mel_bridge.Prelude.{
  ℕ, Bool, true, false, ◌||◌, not, Option, none, some, List, [], if◌then◌else◌, is_some, codes,
}
use ams_gra_mel_bridge.Diagnostic.{Diagnostic, write_diagnostic, clear_diagnostic, bad_diagnostic}
use ams_gra_mel_bridge.Provider.{
  Status, ok, invalid_argument, internal_error, Call, returned, threw, Fault, is_empty,
}
use ams_gra_mel_bridge.RfParent.{ShutdownOutcome}
use ams_gra_mel_bridge.ProductRx.Callback.{CallbackState, Counters, receive}
use ams_gra_mel_bridge.ProductRx.Create.{current_exception_text}
use ams_gra_mel_bridge.ProductRx.Request.{
  Completion, refused, taken, claim_locked, cache_failure, registration_failure, abandon,
}

-- What Claim meets: whether it can lock the mutex, whether its allocations succeed, what
-- `setDataReadyCallback` does, whether the text of a fault finds memory, what
-- `logical_close_and_drain` returns, and the outcome of the release of the child claim.
pub record Registration : Type 0 where
  pub locks : Bool
  pub allocates : Bool
  pub register : Call (Unit {0})
  pub strings : Bool
  pub drained : Bool
  pub release : ShutdownOutcome
  pub bad_alloc_what : List ℕ

-- What has become of the endpoint and the child claim that Claim took.
pub data Taken : Type 0 where
  nothing handed_out torn_down retained : Taken

pub record Claimed {ℓ} (E : Type ℓ) : Type ℓ where
  pub status : Status
  pub completion : Completion E
  pub fate : Taken
  pub registered : Bool
  pub info : Option (ℕ × ℕ)
  pub diagnostic : Diagnostic

abbrev told : Option (List ℕ) → Diagnostic → Diagnostic
told none d = d
told (some text) d = write_diagnostic text d

abbrev failure_text : Registration → Fault → List ℕ
failure_text w f =
    if w.strings
    then current_exception_text w.bad_alloc_what (codes "provider setDataReadyCallback exception")
        (codes "unknown provider setDataReadyCallback exception") f
    else []

abbrev is_ok : Status → Bool
is_ok ok = true
is_ok _ = false

module _ {ℓ} {E : Type ℓ} where
  -- After a registration that threw.
  unfoldable pub claim_failed : Registration → Fault → Completion E → Diagnostic → Claimed E
  claim_failed w f c d =
      let cached = cache_failure (registration_failure f) (failure_text w f) c in
      let d' = write_diagnostic (failure_text w f) d in
      if not w.drained
      then record {
        status = internal_error;
        completion = cached;
        fate = Taken.retained;
        registered = true;
        info = none;
        diagnostic =
            write_diagnostic (codes "RF ProductRx registration cleanup failed; endpoint retained")
              d';
      }
      else if is_ok w.release.status
      then record {
        status = registration_failure f;
        completion = cached;
        fate = Taken.torn_down;
        registered = true;
        info = none;
        diagnostic = d';
      }
      else record {
        status = w.release.status;
        completion = cached;
        fate = Taken.torn_down;
        registered = true;
        info = none;
        diagnostic = write_diagnostic w.release.message d';
      }

  -- `ams_mel_rf_product_rx_request_claim` on a request; `slots` is whether `out_endpoint` is free and
  -- `out_info` is not null.
  unfoldable pub request_claim : Registration → Completion E → Bool → Diagnostic → Claimed E
  unfolding claim_failed
  request_claim w c slots d0 =
      let d = clear_diagnostic d0 in
      if bad_diagnostic d0 || not slots
      then record {
        status = invalid_argument;
        completion = c;
        fate = Taken.nothing;
        registered = false;
        info = none;
        diagnostic = d;
      }
      else if not w.locks
      then record {
        status = internal_error;
        completion = c;
        fate = Taken.nothing;
        registered = false;
        info = none;
        diagnostic = write_diagnostic (codes "allocation failed before RF callback registration") d;
      }
      else elim (claim_locked w.allocates c) [
        | refused status text ↦ record {
          status = status;
          completion = c;
          fate = Taken.nothing;
          registered = false;
          info = none;
          diagnostic = told text d;
        }
        | taken endpoint held c' ↦ elim w.register [
          | returned _ ↦ record {
            status = ok;
            completion = c';
            fate = Taken.handed_out;
            registered = true;
            info = some c'.info;
            diagnostic = d;
          }
          | threw f ↦ claim_failed w f c' d
        ]
      ]

  -- `ams_mel_rf_product_rx_request_close`: the slot is null or holds a request or nothing; `locks` is
  -- whether the mutex can be locked. The status, the slot, the completion that lives on, the text.
  pub request_close :
      Option (Option (Completion E))
      → Bool
      → Diagnostic
      → Status × Option (Option (Completion E)) × Option (Completion E) × Diagnostic
  request_close none locks d = (invalid_argument, none, none, clear_diagnostic d)
  request_close (some none) locks d =
      if bad_diagnostic d
      then (invalid_argument, some none, none, clear_diagnostic d)
      else (ok, some none, none, clear_diagnostic d)
  request_close (some (some c)) locks d =
      if bad_diagnostic d
      then (invalid_argument, some (some c), some c, clear_diagnostic d)
      else if locks
      then (ok, some none, some (abandon c), clear_diagnostic d)
      else (
        internal_error,
        some none,
        some c,
        write_diagnostic (codes "RF ProductRx request close failed; provider state retained")
            (clear_diagnostic d),
      )

-- `ams_mel_rf_product_rx_receive` on an endpoint whose wait has ended; `slot_free` is whether
-- `out_event` is not null and empty. The endpoint may be null.
pub product_rx_receive {ℓ} :
    {A : Type ℓ}
    → Option (CallbackState A)
    → Bool
    → Bool
    → Diagnostic
    → Status × Option A × Option (CallbackState A) × Diagnostic
product_rx_receive none slot_free locks d = (invalid_argument, none, none, clear_diagnostic d)
product_rx_receive (some s) slot_free locks d =
    let (status, event, s') = receive s in
    if bad_diagnostic d || not slot_free
    then (invalid_argument, none, some s, clear_diagnostic d)
    else if locks
    then (status, event, some s', clear_diagnostic d)
    else (
      internal_error,
      none,
      some s,
      write_diagnostic (codes "RF ProductRx receive failed") (clear_diagnostic d),
    )

-- `ams_mel_rf_product_rx_get_counters`; `out` is what the caller's slot holds.
pub get_counters {ℓ} :
    {A : Type ℓ}
    → Option (CallbackState A)
    → Bool
    → Option Counters
    → Diagnostic
    → Status × Option Counters × Diagnostic
get_counters none locks out d = (invalid_argument, out, clear_diagnostic d)
get_counters (some s) locks out d =
    if bad_diagnostic d || not (is_some out)
    then (invalid_argument, out, clear_diagnostic d)
    else if locks
    then (ok, some s.counters, clear_diagnostic d)
    else (
      internal_error,
      out,
      write_diagnostic (codes "RF ProductRx counters failed") (clear_diagnostic d),
    )

-- `ams_mel_rf_product_rx_close` of an endpoint that is there. `drained` is what
-- `logical_close_and_drain` returns, and `release` the outcome of the release of the child claim. The
-- status, what has become of the endpoint, and the text.
pub product_rx_close : Bool → ShutdownOutcome → Diagnostic → Status × Taken × Diagnostic
product_rx_close drained release d0 =
    let d = clear_diagnostic d0 in
    if bad_diagnostic d0
    then (invalid_argument, Taken.handed_out, d)
    else if not drained
    then (
      internal_error,
      Taken.retained,
      write_diagnostic (codes "RF ProductRx close failed; endpoint retained") d,
    )
    else if is_ok release.status
    then (ok, Taken.torn_down, d)
    else (
      release.status,
      Taken.torn_down,
      write_diagnostic
          (if is_empty release.message
            then codes "deferred RF DataMEL shutdown failed"
            else release.message)
          d,
    )
