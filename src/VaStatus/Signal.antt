-- ===== src/VaStatus/Signal.antt =====
-- The signal of native/src/rf_va_status.cpp under every interleaving of callbacks, Waits and stops.
use ams_gra_mel_bridge.Prelude.{
  ℕ, ◌+◌, ◌≡◌, ◌≤◌, ◌<◌, ◌⊎◌, inl, inr, true, false, ◌&&◌, not, bit, arith, Bool-cases,
}
use ams_gra_mel_bridge.Provider.{stream_stopped, ok, Call}
use ams_gra_mel_bridge.VaStatus.{
  VaSignalState, fresh_signal, statistic_max, va_callback, stop_va_signal, wait_locked, wait_ready,
  VaRegistration, remove_va_callback,
}

-- `discarded` counts the raised signals that a stop has dropped.
pub record System : Type 0 where
  pub state : VaSignalState
  pub open state use *
  pub discarded : ℕ

-- A lock that fails changes nothing, so it is no step.
pub data Step (s t : System) : Type 0 where
  callback : t ≡ record s { state = va_callback s.state } → Step s t
  wait : t ≡ record s { state = (wait_locked s.state).1 } → Step s t
  stop :
      t ≡ record s { state = stop_va_signal s.state; discarded = s.discarded + bit s.pending }
      → Step s t

pub data Reach : System → Type 0 where
  start : Reach (record { state = fresh_signal; discarded = 0 })
  next : {s t : System} → Reach s → Step s t → Reach t

abbrev accounted : System → ℕ
accounted s =
    s.statistics.notifications_delivered
    + s.statistics.callbacks_coalesced
    + s.statistics.callbacks_after_stop
    + bit s.pending
    + s.discarded

record Inv (s : System) : Type 0 where
  pub conserved :
      (s.statistics.callback_entries ≡ statistic_max)
      ⊎ (s.statistics.callback_entries ≡ accounted s)
  pub ranged : s.statistics.callback_entries ≤ statistic_max
  pub final : (s.stopped ≡ false) ⊎ (s.pending ≡ false)
  pub once : s.discarded ≤ bit s.stopped

Step-Inv : {s t : System} → Step s t → Inv s → Inv t
unfolding va_callback wait_locked stop_va_signal
Step-Inv (callback e) v = ground arith
Step-Inv (wait e) v = ground arith
Step-Inv (stop e) v = ground arith

Reach-Inv : {s : System} → Reach s → Inv s
Reach-Inv start = ground arith
Reach-Inv (next r st) = Step-Inv st (Reach-Inv r)

-- No notification is lost: until 2^64 - 1 callbacks have come, each is counted once as delivered by
-- a Wait, merged into a signal that was still raised, or late, or it is the raised signal, or the
-- one signal that a stop has dropped.
pub signal_account :
    {s : System}
    → Reach s
    → s.statistics.callback_entries < statistic_max
    → (s.statistics.callback_entries
        ≡ s.statistics.notifications_delivered
          + s.statistics.callbacks_coalesced
          + s.statistics.callbacks_after_stop
          + bit s.pending
          + s.discarded)
      × (s.discarded ≤ bit s.stopped)
signal_account r h = let v = Reach-Inv r in ground arith

-- In every state that the signal can be in, a Wait right after a callback does not time out: before
-- a stop it delivers the signal and lowers it, and after a stop it reports that the stream has
-- stopped and changes nothing, and the callback has not raised the signal.
pub callback_wakes :
    {s : System}
    → Reach s
    → let raised = va_callback s.state in
      (wait_ready raised ≡ true)
      × (((s.stopped ≡ false)
            × ((wait_locked raised).0 ≡ ok)
            × ((wait_locked raised).1.pending ≡ false))
          ⊎ ((s.stopped ≡ true)
              × (wait_locked raised ≡ (stream_stopped, raised))
              × (raised.pending ≡ false)))
unfolding va_callback wait_locked
callback_wakes {s = s} r =
    let v = Reach-Inv r in
    elim (Bool-cases s.stopped) [
      | inl e ↦ (ground arith, inr (ground arith))
      | inr e ↦ (ground arith, inl (ground arith))
    ]

-- The provider is asked at most once to remove a callback, and only when it has given the key and
-- has not been asked before; a second removal, whatever the first did, changes nothing.
pub remove_va_callback_twice :
    (first second : Call (Unit {0})) (r : VaRegistration)
    → let once = remove_va_callback first r in
      (once.removals ≤ r.removals + bit (r.key_known && not r.removal_attempted))
      × (remove_va_callback second once ≡ once)
unfolding remove_va_callback stop_va_signal
remove_va_callback_twice first second r =
    elim (Bool-cases (r.key_known && not r.removal_attempted)) [
      | inl e ↦ (ground arith, ground arith)
      | inr e ↦ (ground arith, ground arith)
    ]
