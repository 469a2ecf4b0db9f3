-- ===== src/Tests/Status.antt =====
-- A status signal of native/src/rf_va_status.cpp that is raised twice and then stopped.
use ams_gra_mel_bridge.Prelude.{◌+◌, ◌≡◌, ◌≤◌, refl, true, false, some, none, bit, arith}
use ams_gra_mel_bridge.Provider.{ok}
use ams_gra_mel_bridge.VaStatus.{fresh_signal, va_callback, stop_va_signal, VaRegistration}
use ams_gra_mel_bridge.VaStatus.Signal.{System, Reach, start, next, callback, stop, signal_account}

abbrev raised_twice : System
raised_twice = record {
  state = record fresh_signal {
    pending = true;
    statistics = record fresh_signal.statistics { callback_entries = 2; callbacks_coalesced = 1 };
  };
  discarded = 0;
}

raised_twice-Reach : Reach raised_twice
unfolding va_callback
raised_twice-Reach = next (next start (callback refl)) (callback refl)

abbrev stopped : System
stopped = record {
  state = record raised_twice.state { pending = false; stopped = true };
  discarded = 1;
}

stopped-Reach : Reach stopped
unfolding stop_va_signal
stopped-Reach = next raised_twice-Reach (stop refl)

signal_account_example :
    (stopped.statistics.callback_entries
      ≡ stopped.statistics.notifications_delivered
        + stopped.statistics.callbacks_coalesced
        + stopped.statistics.callbacks_after_stop
        + bit stopped.pending
        + stopped.discarded)
    × (stopped.discarded ≤ bit stopped.stopped)
signal_account_example = signal_account stopped-Reach (omega arith)

abbrev registration : VaRegistration
registration = record {
  state = some raised_twice.state;
  key_known = true;
  removal_attempted = false;
  removal_status = ok;
  diagnostic = record { buffer = none; capacity = 0; required = none };
  removals = 0;
}
