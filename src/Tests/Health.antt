-- ===== src/Tests/Health.antt =====
-- The health events of native/src/ir_health.cpp, with a queue of one event.
use ams_gra_mel_bridge.Prelude.{ℕ, ◌+◌, ◌≡◌, refl, ◌⊎◌, true, false, some, ◌∷◌, [], arith}
use ams_gra_mel_bridge.Health.{
  stopped, failed, built, callback_arrives, callback_stores, stop_metadata,
}
use ams_gra_mel_bridge.Health.Interleaving.{
  System, fresh, sleeping, ended, enter, arrive, store, leave, channel_destroyed, finish, Reach,
  start, next,
}
use ams_gra_mel_bridge.Health.Events.{ended_is_quiet}
use ams_gra_mel_bridge.Provider.{ok}
use ams_gra_mel_bridge.Health.Channel.{
  HealthState, HealthAnswers, enabled, claim_health_request, finish_health_request,
  finish_health_requests, health_close, close-finish_health_requests,
}
use ams_gra_mel_bridge.Health.Drain.{asleep, lost_wakeup}

-- A callback has queued event 5, and is about to return.
abbrev one_left : System ℕ
one_left = record (fresh 1) {
  state =
      (callback_stores (built 5) (callback_arrives (record (fresh 1).state { callbacks = 1 })).1).1;
  stored = 5 ∷ [];
}

one_left-Reach : Reach (fresh 1) one_left
unfolding callback_arrives callback_stores
one_left-Reach =
    next (next (next start (enter refl refl)) (arrive (omega arith) refl refl))
      (store (built 5) (omega arith) refl refl)

-- The teardown has ended.
abbrev torn_down : System ℕ
torn_down = record one_left {
  state = stop_metadata (record one_left.state { callbacks = 0 });
  waiter = ended;
}

torn_down-Reach : Reach (fresh 1) torn_down
unfolding callback_arrives callback_stores stop_metadata
torn_down-Reach =
    next (next (next one_left-Reach (leave (omega arith) refl)) (channel_destroyed refl refl))
      (finish refl refl refl)

ended_is_quiet_example :
    (torn_down.callbacks ≡ 0)
    × (torn_down.entering + torn_down.building ≡ 0)
    × (torn_down.counters ≡ torn_down.counters)
    × (torn_down.stored ≡ torn_down.stored)
    × ((torn_down.lifecycle ≡ stopped) ⊎ (torn_down.lifecycle ≡ failed))
ended_is_quiet_example = ended_is_quiet torn_down-Reach refl start

lost_wakeup_example :
    Reach (fresh 1) (asleep one_left)
    × ((asleep one_left).waiter ≡ sleeping)
    × ((asleep one_left).callbacks ≡ 0)
unfolding callback_arrives callback_stores
lost_wakeup_example = lost_wakeup one_left-Reach refl refl refl start

abbrev sound : HealthAnswers
sound = record { disables = true; detaches = true }

-- The provider does not detach the channel.
abbrev clinging : HealthAnswers
clinging = record { disables = true; detaches = false }

abbrev opened_channel : HealthState ℕ
opened_channel = record {
  channel = true;
  metadata = some (fresh 1).state;
  lifecycle = enabled;
  requests = 0;
  enable_attempted = true;
  cleanup_started = false;
  retained = false;
}

abbrev two_asked : HealthState ℕ
two_asked = record opened_channel { requests = 2 }

close-finish_health_requests_example :
    let shut = health_close clinging two_asked in
    let early = finish_health_requests clinging 1 shut.2 in
    let last = finish_health_request clinging early.1 in
    (shut.0 ≡ (ok, []))
    × (shut.1 ≡ true)
    × ((claim_health_request shut.2).0 ≡ false)
    × (early.0 ≡ true)
    × (early.1.channel ≡ true)
    × (last.1.channel ≡ true)
    × (last.1.retained ≡ true)
    × (last.0 ≡ false)
close-finish_health_requests_example =
    close-finish_health_requests clinging 1 two_asked refl refl refl
