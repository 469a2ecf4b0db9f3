-- ===== src/ProductRx/Interleaving.antt =====
-- native/src/rf_product_rx.cpp: an endpoint whose callback is registered, under every interleaving of
-- the provider's callbacks, the Receives, and the thread that closes it.
use ams_gra_mel_bridge.Prelude.{
  ℕ, ◌+◌, ◌-◌, ◌<◌, ◌≡◌, Bool, true, Option, none, some, List, [], ◌∷◌, ◌++◌, bit,
}
use ams_gra_mel_bridge.ProductRx.Callback.{
  receiving, CallbackState, no_counters, Built, callback_enters, callback_leaves, logical_close,
  drained, receive,
}

-- Where the thread that closes the endpoint stands, in `ams_mel_rf_product_rx_close` or after a
-- registration that threw: not there yet, in the drain, after it, after `endpoint.reset()`, and
-- after the release of the child claim; or, on a lock that fails, gone with the endpoint and the
-- claim retained for ever.
pub data ClosePhase : Type 0 where
  unclosed draining drained_out destroyed claim_released retained : ClosePhase

-- `bodies` counts the callbacks between their two critical sections. `stored`, `delivered` and
-- `cleared` list the products that were queued, received and discarded by Close, oldest first.
pub record System {ℓ} (A : Type ℓ) : Type ℓ where
  pub state : CallbackState A
  pub open state use *
  pub bodies : ℕ
  pub phase : ClosePhase
  pub stored : List A
  pub delivered : List A
  pub cleared : List A

module _ {ℓ} {A : Type ℓ} where
  -- As `ams_mel_rf_product_rx_request_claim` makes it before the registration.
  abbrev pub registered : ℕ → System A
  registered capacity = record {
    state = record {
      lifecycle = receiving;
      queue = [];
      queue_capacity = capacity;
      in_flight = 0;
      counters = no_counters;
    };
    bodies = 0;
    phase = unclosed;
    stored = [];
    delivered = [];
    cleared = [];
  }

  abbrev taken : Option A → List A
  taken none = []
  taken (some event) = event ∷ []

  -- `new` of `leave` is what the second critical section appends to the queue.
  pub data Step (s t : System A) : Type ℓ where
    enter :
        t ≡ record s {
          state = (callback_enters s.state).1;
          bodies = s.bodies + bit (callback_enters s.state).0;
        }
        → Step s t
    leave :
        (pushes : Bool) (built : Built A) (new : List A)
        → 0 < s.bodies
        → (callback_leaves pushes built s.state).queue ≡ s.queue ++ new
        → t ≡ record s {
          state = callback_leaves pushes built s.state;
          bodies = s.bodies - 1;
          stored = s.stored ++ new;
        }
        → Step s t
    take :
        t ≡ record s {
          state = (receive s.state).2;
          delivered = s.delivered ++ taken (receive s.state).1;
        }
        → Step s t
    close :
        s.phase ≡ unclosed
        → t ≡ record s {
          state = logical_close s.state;
          phase = draining;
          cleared = s.cleared ++ s.queue;
        }
        → Step s t
    drain :
        s.phase ≡ draining
        → drained s.state ≡ true
        → t ≡ record s { phase = drained_out }
        → Step s t
    destroy_endpoint : s.phase ≡ drained_out → t ≡ record s { phase = destroyed } → Step s t
    release_claim : s.phase ≡ destroyed → t ≡ record s { phase = claim_released } → Step s t
    close_lock_fails : s.phase ≡ unclosed → t ≡ record s { phase = retained } → Step s t
    drain_lock_fails : s.phase ≡ draining → t ≡ record s { phase = retained } → Step s t

  pub data Reach (capacity : ℕ) : System A → Type ℓ where
    start : Reach capacity (registered capacity)
    next : {s t : System A} → Reach capacity s → Step s t → Reach capacity t
