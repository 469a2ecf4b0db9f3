-- ===== src/Tests/Receive.antt =====
-- An endpoint of native/src/rf_product_rx.cpp with room for one product.
use ams_gra_mel_bridge.Prelude.{ℕ, ◌+◌, ◌≡◌, refl, ◌⊎◌, true, [], ◌∷◌, arith}
use ams_gra_mel_bridge.Provider.{returned}
use ams_gra_mel_bridge.ProductRx.Callback.{
  closed, receiving, no_counters, accepted, callback_enters, callback_leaves, on_data_ready,
  logical_close,
}
use ams_gra_mel_bridge.ProductRx.Interleaving.{
  ClosePhase, System, draining, destroyed, registered, Reach, start, next, enter, leave, close,
  drain, destroy_endpoint,
}
use ams_gra_mel_bridge.ProductRx.Body.{Countable, received, Settled, on_data_ready-Settled}
use ams_gra_mel_bridge.ProductRx.Shutdown.{
  endpoint_alive, claim_held, body_keeps_endpoint, close_completes, Unwinds,
}

-- Two callbacks are in their bodies.
abbrev two_bodies : System ℕ
two_bodies = record (registered 1) {
  state = record (registered 1).state {
    in_flight = 2;
    counters = record no_counters { callbacks_received = 2 };
  };
  bodies = 2;
}

two_bodies-Reach : Reach 1 two_bodies
unfolding callback_enters
two_bodies-Reach = next (next start (enter refl)) (enter refl)

-- The first has queued product 7.
abbrev one_queued : System ℕ
one_queued = record two_bodies {
  state = record two_bodies.state {
    queue = 7 ∷ [];
    in_flight = 1;
    counters = record no_counters { callbacks_received = 2; products_queued = 1 };
  };
  bodies = 1;
  stored = 7 ∷ [];
}

one_queued-Reach : Reach 1 one_queued
unfolding callback_leaves
one_queued-Reach = next two_bodies-Reach (leave true (accepted 7) (7 ∷ []) (omega arith) refl refl)

-- Close has begun, and waits for the second.
abbrev closing : System ℕ
closing = record one_queued {
  state = record one_queued.state { lifecycle = closed; queue = [] };
  phase = draining;
  cleared = 7 ∷ [];
}

closing-Reach : Reach 1 closing
unfolding logical_close
closing-Reach = next one_queued-Reach (close refl refl)

-- The second has come too late, and the endpoint object is destroyed.
abbrev gone : System ℕ
gone = record closing {
  state = record closing.state {
    in_flight = 0;
    counters = record no_counters {
      callbacks_received = 2;
      products_queued = 1;
      callbacks_after_close = 1;
    };
  };
  bodies = 0;
  phase = destroyed;
}

gone-Reach : Reach 1 gone
unfolding callback_leaves
gone-Reach =
    next
      (next (next closing-Reach (leave true (accepted 8) [] (omega arith) refl refl))
        (drain refl refl refl))
      (destroy_endpoint refl refl)

body_keeps_endpoint_example :
    (endpoint_alive closing.phase ≡ true) × (claim_held closing.phase ≡ true)
body_keeps_endpoint_example = body_keeps_endpoint closing-Reach (omega arith)

close_completes_example :
    (t : System ℕ) × Unwinds (λ n. (true, accepted n)) closing t
    × (t.phase ≡ ClosePhase.claim_released)
    × (t.bodies ≡ 0)
    × (t.stored ≡ closing.stored)
    × (t.delivered ≡ closing.delivered)
close_completes_example = close_completes (λ n. (true, accepted n)) closing-Reach refl

one_queued-Countable : Countable one_queued.counters
one_queued-Countable =
    (omega arith, omega arith, omega arith, omega arith, omega arith, omega arith)

on_data_ready-Settled_example :
    ((one_queued.lifecycle ≡ closed)
      × (on_data_ready true (returned (accepted 9)) one_queued.state ≡ record one_queued.state {
        counters = record (received one_queued.counters) {
          callbacks_after_close = one_queued.counters.callbacks_after_close + 1;
        };
      }))
    ⊎ ((one_queued.lifecycle ≡ receiving)
        × Settled true
            (returned (accepted 9))
            one_queued.state
            (on_data_ready true (returned (accepted 9)) one_queued.state))
on_data_ready-Settled_example =
    on_data_ready-Settled true (returned (accepted 9)) one_queued.state one_queued-Countable
