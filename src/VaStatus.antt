-- ===== src/VaStatus.antt =====
-- native/src/rf_va_status.cpp and native/src/internal/rf_va_status.hpp: the status signal of an RF
-- virtual aperture, which a callback of the provider raises and a subscriber waits for.
pub mod Signal
use ams_gra_mel_bridge.Prelude.{
  ℕ, ◌+◌, ◌-◌, ◌^◌, Bool, true, false, ◌||◌, not, Option, none, some, List, [], ◌==◌, if◌then◌else◌,
  is_some, bit, codes,
}
use ams_gra_mel_bridge.Diagnostic.{Diagnostic, clear_diagnostic, bad_diagnostic}
use ams_gra_mel_bridge.Provider.{
  Status, ok, invalid_argument, timeout, stream_stopped, internal_error, Call, returned, threw,
  translate_provider_exception,
}

abbrev pub statistic_max : ℕ
statistic_max = 2 ^ 64 - 1

abbrev pub increment : ℕ → ℕ
increment value = if value == statistic_max then value else value + 1

-- `ams_mel_rf_va_status_subscription_statistics_v1`
pub record Statistics : Type 0 where
  pub callback_entries : ℕ
  pub notifications_delivered : ℕ
  pub callbacks_coalesced : ℕ
  pub callbacks_after_stop : ℕ
  pub pending_flag : ℕ
  pub stopped_flag : ℕ

pub record VaSignalState : Type 0 where
  pub stopped : Bool
  pub pending : Bool
  pub statistics : Statistics

abbrev pub fresh_signal : VaSignalState
fresh_signal = record {
  stopped = false;
  pending = false;
  statistics = record {
    callback_entries = 0;
    notifications_delivered = 0;
    callbacks_coalesced = 0;
    callbacks_after_stop = 0;
    pending_flag = 0;
    stopped_flag = 0;
  };
}

-- The body of the callback of `prepare_va_callable` under the mutex.
unfoldable pub va_callback : VaSignalState → VaSignalState
va_callback s =
    let entered = record s.statistics {
      callback_entries = increment s.statistics.callback_entries;
    } in
    let late = record entered {
      callbacks_after_stop = increment s.statistics.callbacks_after_stop;
    } in
    let merged = record entered {
      callbacks_coalesced = increment s.statistics.callbacks_coalesced;
    } in
    if s.stopped
    then record s { statistics = late }
    else record s { pending = true; statistics = if s.pending then merged else entered }

unfoldable pub stop_va_signal : VaSignalState → VaSignalState
stop_va_signal s = record s { stopped = true; pending = false }

-- The predicate of the `wait_for` of Wait.
abbrev pub wait_ready : VaSignalState → Bool
wait_ready s = s.stopped || s.pending

-- Wait once its `wait_for` has returned: by its predicate, or with the time run out.
unfoldable pub wait_locked : VaSignalState → Status × VaSignalState
wait_locked s =
    let delivered = record s {
      pending = false;
      statistics = record s.statistics {
        notifications_delivered = increment s.statistics.notifications_delivered;
      };
    } in
    if not (wait_ready s)
    then (timeout, s)
    else if s.stopped
    then (stream_stopped, s)
    else (ok, delivered)

-- `ams_mel_rf_va_status_subscription_wait`; `locks` is whether the mutex can be locked.
pub va_wait : Bool → Option VaSignalState → Diagnostic → Status × Option VaSignalState × Diagnostic
va_wait locks none d = (invalid_argument, none, clear_diagnostic d)
va_wait locks (some s) d =
    let (status, s') = wait_locked s in
    if bad_diagnostic d
    then (invalid_argument, some s, clear_diagnostic d)
    else if locks
    then (status, some s', clear_diagnostic d)
    else (internal_error, some s, clear_diagnostic d)

-- `ams_mel_rf_va_status_subscription_get_statistics`; `out` is what the caller's slot holds.
pub get_statistics :
    Bool
    → Option VaSignalState
    → Option Statistics
    → Diagnostic
    → Status × Option Statistics × Diagnostic
get_statistics locks none out d = (invalid_argument, out, clear_diagnostic d)
get_statistics locks (some s) out d =
    if not (is_some out) || bad_diagnostic d
    then (invalid_argument, out, clear_diagnostic d)
    else if locks
    then (
      ok,
      some (record s.statistics { pending_flag = bit s.pending; stopped_flag = bit s.stopped }),
      clear_diagnostic d,
    )
    else (internal_error, out, clear_diagnostic d)

-- `ams_mel_rf_va_status_subscription_close`: the slot, and the state that the callback still has.
pub subscription_close :
    Option (Option VaSignalState)
    → Diagnostic
    → Status × Option (Option VaSignalState) × Option VaSignalState
unfolding stop_va_signal
subscription_close none d = (invalid_argument, none, none)
subscription_close (some none) d =
    if bad_diagnostic d then (invalid_argument, some none, none) else (ok, some none, none)
subscription_close (some (some s)) d =
    if bad_diagnostic d
    then (invalid_argument, some (some s), some s)
    else (ok, some none, some (stop_va_signal s))

-- VaRegistration, with its `diagnostic` array. `removals` counts the calls of the provider's
-- `removeStatusCallback`; the code keeps no such count.
pub record VaRegistration : Type 0 where
  pub state : Option VaSignalState
  pub key_known : Bool
  pub removal_attempted : Bool
  pub removal_status : Status
  pub diagnostic : Diagnostic
  pub removals : ℕ

abbrev stop_state : Option VaSignalState → Option VaSignalState
stop_state none = none
stop_state (some s) = some (stop_va_signal s)

unfoldable pub remove_va_callback : Call (Unit {0}) → VaRegistration → VaRegistration
unfolding stop_va_signal
remove_va_callback remove r =
    let stopped = record r { state = stop_state r.state } in
    let attempted = record stopped { removal_attempted = true; removals = r.removals + 1 } in
    if not r.key_known || r.removal_attempted then stopped else elim remove [
      | returned _ ↦ attempted
      | threw f ↦
          let (status, d) =
            translate_provider_exception (codes "VA callback removal exception")
              (codes "unknown VA callback removal exception") f r.diagnostic in
          record attempted { removal_status = status; diagnostic = d }
    ]
