-- ===== src/ProductRx/Body.antt =====
-- `on_data_ready` of native/src/rf_product_rx.cpp from its start to its return.
use ams_gra_mel_bridge.Prelude.{
  ℕ, ◌+◌, ◌≤◌, ◌<◌, ◌≡◌, refl, ◌⊎◌, inl, inr, Bool, true, false, Option, List, [], ◌∷◌, ◌++◌, arith,
  leb, length, Bool-cases,
}
use ams_gra_mel_bridge.Provider.{Call, Fault, returned, threw}
use ams_gra_mel_bridge.ProductRx.Callback.{
  RxLifecycle, receiving, closed, CallbackState, Counters, Built, accepted, malformed,
  allocation_failure, counter_max, build_outcome, callback_enters, callback_leaves, on_data_ready,
}

-- No counter is at its end.
abbrev pub Countable : Counters → Type 0
Countable c =
    (c.callbacks_received < counter_max)
    × (c.products_queued < counter_max)
    × (c.products_dropped_queue_full < counter_max)
    × (c.malformed_or_unsupported < counter_max)
    × (c.allocation_failures < counter_max)
    × (c.callbacks_after_close < counter_max)

lifecycle-cases : (l : RxLifecycle) → (l ≡ closed) ⊎ (l ≡ receiving)
lifecycle-cases receiving = inr refl
lifecycle-cases closed = inl refl

-- One more callback is received.
abbrev pub received : Counters → Counters
received c = record c { callbacks_received = c.callbacks_received + 1 }

module _ {ℓ} {A : Type ℓ} where
  -- What a callback on an open endpoint makes of its product.
  abbrev pub Settled : Bool → Call (Built A) → CallbackState A → CallbackState A → Type ℓ
  Settled pushes build s t =
      ((event : A) × (build ≡ returned (accepted event))
        × (length s.queue < s.queue_capacity)
        × (pushes ≡ true)
        × (t ≡ record s {
          queue = s.queue ++ event ∷ [];
          counters = record (received s.counters) {
            products_queued = s.counters.products_queued + 1;
          };
        }))
      ⊎ (((event : A) × (build ≡ returned (accepted event))
            × (s.queue_capacity ≤ length s.queue)
            × (t ≡ record s {
              counters = record (received s.counters) {
                products_dropped_queue_full = s.counters.products_dropped_queue_full + 1;
              };
            }))
          ⊎ ((((((event : A) × (build ≡ returned (accepted event)))
                    × (length s.queue < s.queue_capacity)
                    × (pushes ≡ false))
                  ⊎ ((build ≡ returned allocation_failure) ⊎ (build ≡ threw Fault.bad_alloc)))
                × (t ≡ record s {
                  counters = record (received s.counters) {
                    allocation_failures = s.counters.allocation_failures + 1;
                  };
                }))
              ⊎ (((build ≡ returned malformed)
                    ⊎ (((what : Option (List ℕ)) × (build ≡ threw (Fault.exception what)))
                        ⊎ (build ≡ threw Fault.unknown)))
                  × (t ≡ record s {
                    counters = record (received s.counters) {
                      malformed_or_unsupported = s.counters.malformed_or_unsupported + 1;
                    };
                  }))))

  settles_open :
      (pushes : Bool) (build : Call (Built A)) (s : CallbackState A)
      → Countable s.counters
      → s.lifecycle ≡ receiving
      → Settled pushes build s (on_data_ready pushes build s)
  unfolding on_data_ready callback_enters callback_leaves build_outcome
  settles_open pushes (returned malformed) s c e = inr (inr (inr (inl refl, ground arith)))
  settles_open pushes (returned allocation_failure) s c e =
      inr (inr (inl (inr (inl refl), ground arith)))
  settles_open pushes (threw Fault.bad_alloc) s c e = inr (inr (inl (inr (inr refl), ground arith)))
  settles_open pushes (threw (Fault.exception what)) s c e =
      inr (inr (inr (inr (inl (what, refl)), ground arith)))
  settles_open pushes (threw Fault.unknown) s c e = inr (inr (inr (inr (inr refl), ground arith)))
  settles_open pushes (returned (accepted event)) s c e =
      elim (Bool-cases (leb s.queue_capacity (length s.queue))) [
        | inl full ↦ inr (inl (event, refl, ground arith, ground arith))
        | inr room ↦ elim (Bool-cases pushes) [
          | inl p ↦ inl (event, refl, ground arith, p, ground arith)
          | inr p ↦ inr (inr (inl (inl ((event, refl), ground arith, p), ground arith)))
        ]
      ]

  settles_closed :
      (pushes : Bool) (build : Call (Built A)) (s : CallbackState A)
      → Countable s.counters
      → s.lifecycle ≡ closed
      → on_data_ready pushes build s ≡ record s {
        counters = record (received s.counters) {
          callbacks_after_close = s.counters.callbacks_after_close + 1;
        };
      }
  unfolding on_data_ready callback_enters
  settles_closed pushes build s c e = ground arith

  -- A callback that no other thread disturbs, while no counter is at its end, leaves the endpoint as
  -- it was but for one more callback received and one of five things. On a closed endpoint it is
  -- counted as late, whatever the product. Else an event that has been built is appended to the queue
  -- and counted if the queue has room and finds memory; counted as dropped if the queue is full; and
  -- as a failure for memory if the queue finds none, or if the copy has found none; and a product
  -- that is malformed, or whose copy threw anything but `std::bad_alloc`, is counted as malformed.
  pub on_data_ready-Settled :
      (pushes : Bool) (build : Call (Built A)) (s : CallbackState A)
      → Countable s.counters
      → ((s.lifecycle ≡ closed)
          × (on_data_ready pushes build s ≡ record s {
            counters = record (received s.counters) {
              callbacks_after_close = s.counters.callbacks_after_close + 1;
            };
          }))
        ⊎ ((s.lifecycle ≡ receiving) × Settled pushes build s (on_data_ready pushes build s))
  on_data_ready-Settled pushes build s c = elim (lifecycle-cases s.lifecycle) [
    | inl e ↦ inl (e, settles_closed pushes build s c e)
    | inr e ↦ inr (e, settles_open pushes build s c e)
  ]
