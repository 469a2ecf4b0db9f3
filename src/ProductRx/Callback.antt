-- ===== src/ProductRx/Callback.antt =====
-- native/src/rf_product_rx.cpp, RfRxCallbackState and what a thread does to it under its mutex: the
-- two critical sections of `on_data_ready`, those of `logical_close_and_drain`, Receive and the
-- counters.
use ams_gra_mel_bridge.Prelude.{
  ℕ, ◌+◌, ◌-◌, ◌^◌, Bool, true, false, Option, none, some, List, [], ◌∷◌, ◌++◌, length, leb, ◌==◌,
  if◌then◌else◌,
}
use ams_gra_mel_bridge.Provider.{Status, ok, timeout, stream_stopped, Call, returned, threw, Fault}

pub data RxLifecycle : Type 0 where
  receiving closed : RxLifecycle

-- `ams_mel_rf_product_rx_counters_v1`, all of `std::uint64_t`.
pub record Counters : Type 0 where
  pub callbacks_received : ℕ
  pub products_queued : ℕ
  pub products_dropped_queue_full : ℕ
  pub malformed_or_unsupported : ℕ
  pub allocation_failures : ℕ
  pub callbacks_after_close : ℕ

-- RfRxCallbackState over the type of the copied products, without the fields that are only observed
-- by tests and those that never change but for the capacity, which `build_event` reads.
pub record CallbackState {ℓ} (A : Type ℓ) : Type ℓ where
  pub lifecycle : RxLifecycle
  pub queue : List A
  pub queue_capacity : ℕ
  pub in_flight : ℕ
  pub counters : Counters

abbrev pub counter_max : ℕ
counter_max = 2 ^ 64 - 1

abbrev pub saturating_increment : ℕ → ℕ
saturating_increment value = if value == counter_max then value else value + 1

abbrev pub no_counters : Counters
no_counters = record {
  callbacks_received = 0;
  products_queued = 0;
  products_dropped_queue_full = 0;
  malformed_or_unsupported = 0;
  allocation_failures = 0;
  callbacks_after_close = 0;
}

-- BuildOutcome, with the event that an accepted callback has built.
pub data Built {ℓ} (A : Type ℓ) : Type ℓ where
  accepted : A → Built A
  malformed allocation_failure : Built A

-- What `on_data_ready` makes of `build_event`, which may throw.
unfoldable pub build_outcome {ℓ} : {A : Type ℓ} → Call (Built A) → Built A
build_outcome (returned built) = built
build_outcome (threw Fault.bad_alloc) = allocation_failure
build_outcome (threw (Fault.exception what)) = malformed
build_outcome (threw Fault.unknown) = malformed

abbrev is_closed : RxLifecycle → Bool
is_closed receiving = false
is_closed closed = true

module _ {ℓ} {A : Type ℓ} where
  -- One counter goes up.
  abbrev count_received : CallbackState A → CallbackState A
  count_received s = record s {
    counters = record s.counters {
      callbacks_received = saturating_increment s.counters.callbacks_received;
    };
  }

  abbrev count_after_close : CallbackState A → CallbackState A
  count_after_close s = record s {
    counters = record s.counters {
      callbacks_after_close = saturating_increment s.counters.callbacks_after_close;
    };
  }

  abbrev count_malformed : CallbackState A → CallbackState A
  count_malformed s = record s {
    counters = record s.counters {
      malformed_or_unsupported = saturating_increment s.counters.malformed_or_unsupported;
    };
  }

  abbrev count_allocation_failure : CallbackState A → CallbackState A
  count_allocation_failure s = record s {
    counters = record s.counters {
      allocation_failures = saturating_increment s.counters.allocation_failures;
    };
  }

  abbrev count_dropped : CallbackState A → CallbackState A
  count_dropped s = record s {
    counters = record s.counters {
      products_dropped_queue_full = saturating_increment s.counters.products_dropped_queue_full;
    };
  }

  abbrev queue_event : CallbackState A → A → CallbackState A
  queue_event s event = record s {
    queue = s.queue ++ event ∷ [];
    counters = record s.counters {
      products_queued = saturating_increment s.counters.products_queued;
    };
  }

  -- `--state.in_flight`
  abbrev leave : CallbackState A → CallbackState A
  leave s = record s { in_flight = s.in_flight - 1 }

  -- The first critical section of `on_data_ready`: whether the body goes on.
  unfoldable pub callback_enters : CallbackState A → Bool × CallbackState A
  callback_enters s =
      let inside = record (count_received s) { in_flight = s.in_flight + 1 } in
      if is_closed s.lifecycle then (false, leave (count_after_close inside)) else (true, inside)

  -- The `else` branches of the second critical section; `pushes` is whether `push_back` finds memory.
  abbrev store_outcome : Bool → Built A → CallbackState A → CallbackState A
  store_outcome pushes malformed s = count_malformed s
  store_outcome pushes allocation_failure s = count_allocation_failure s
  store_outcome pushes (accepted event) s =
      if leb s.queue_capacity (length s.queue)
      then count_dropped s
      else if pushes
      then queue_event s event
      else count_allocation_failure s

  -- The second critical section.
  unfoldable pub callback_leaves : Bool → Built A → CallbackState A → CallbackState A
  callback_leaves pushes built s =
      leave (if is_closed s.lifecycle then count_after_close s else store_outcome pushes built s)

  -- `on_data_ready` when no other thread comes between its critical sections.
  unfoldable pub on_data_ready : Bool → Call (Built A) → CallbackState A → CallbackState A
  unfolding callback_enters callback_leaves
  on_data_ready pushes build s =
      let (goes_on, inside) = callback_enters s in
      if goes_on then callback_leaves pushes (build_outcome build) inside else inside

  -- The first part of `logical_close_and_drain`; the queued products are swapped out and discarded.
  unfoldable pub logical_close : CallbackState A → CallbackState A
  logical_close s = record s { lifecycle = closed; queue = [] }

  -- The condition on which the second part of `logical_close_and_drain` returns.
  abbrev pub drained : CallbackState A → Bool
  drained s = s.in_flight == 0

  -- `ams_mel_rf_product_rx_receive` from the end of its wait on, which is also all of it when
  -- `timeout_ms` is 0.
  unfoldable pub receive : CallbackState A → Status × Option A × CallbackState A
  receive s = if is_closed s.lifecycle then (stream_stopped, none, s) else elim s.queue [
    | [] ↦ (timeout, none, s)
    | event ∷ rest ↦ (ok, some event, record s { queue = rest })
  ]

  -- The predicate of its `wait_for`.
  abbrev pub receive_ready : CallbackState A → Bool
  receive_ready s = elim s.queue [ [] ↦ is_closed s.lifecycle | event ∷ rest ↦ true ]
