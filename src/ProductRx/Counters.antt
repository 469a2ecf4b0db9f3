-- ===== src/ProductRx/Counters.antt =====
-- The counters of an endpoint of native/src/rf_product_rx.cpp.
use ams_gra_mel_bridge.Prelude.{ℕ, ◌+◌, ◌≤◌, ◌<◌, ◌≡◌, ◌⊎◌, arith}
use ams_gra_mel_bridge.ProductRx.Callback.{
  counter_max, callback_enters, callback_leaves, logical_close, receive,
}
use ams_gra_mel_bridge.ProductRx.Interleaving.{
  System, Step, enter, leave, take, close, drain, destroy_endpoint, release_claim, close_lock_fails,
  drain_lock_fails, Reach, start, next,
}
use ams_gra_mel_bridge.ProductRx.Queue.{Inv, Reach-Inv}

module _ {ℓ} {A : Type ℓ} where
  -- The sum of what has become of the callbacks that were received.
  abbrev accounted : System A → ℕ
  accounted s =
      s.counters.products_queued + s.counters.products_dropped_queue_full
      + s.counters.malformed_or_unsupported + s.counters.allocation_failures
      + s.counters.callbacks_after_close + s.bodies

  abbrev Conserved : System A → Type 0
  Conserved s =
      (s.counters.callbacks_received ≡ counter_max) ⊎ (s.counters.callbacks_received ≡ accounted s)

  abbrev Ranged : System A → Type 0
  Ranged s = s.counters.callbacks_received ≤ counter_max

  Step-Conserved :
      {capacity : ℕ} {s t : System A}
      → Step s t
      → Inv capacity s
      → Conserved s × Ranged s
      → Conserved t × Ranged t
  unfolding callback_enters callback_leaves logical_close receive
  Step-Conserved (enter e) v c = ground arith
  Step-Conserved (leave pushes built new g a e) v c = ground arith
  Step-Conserved (take e) v c = ground arith
  Step-Conserved (close g e) v c = ground arith
  Step-Conserved (drain g h e) v c = ground arith
  Step-Conserved (destroy_endpoint g e) v c = ground arith
  Step-Conserved (release_claim g e) v c = ground arith
  Step-Conserved (close_lock_fails g e) v c = ground arith
  Step-Conserved (drain_lock_fails g e) v c = ground arith

  Reach-Conserved : {capacity : ℕ} {s : System A} → Reach capacity s → Conserved s × Ranged s
  Reach-Conserved start = ground arith
  Reach-Conserved (next r st) = Step-Conserved st (Reach-Inv r) (Reach-Conserved r)

  -- Until 2^64 - 1 callbacks have come, every callback received is counted exactly once more: as
  -- queued, dropped at a full queue, malformed, failed for memory or late, or it is still in its
  -- body, and `in_flight` counts the bodies.
  pub counters_account :
      {capacity : ℕ} {s : System A}
      → Reach capacity s
      → s.counters.callbacks_received < counter_max
      → (s.counters.callbacks_received
          ≡ s.counters.products_queued + s.counters.products_dropped_queue_full
            + s.counters.malformed_or_unsupported + s.counters.allocation_failures
            + s.counters.callbacks_after_close + s.in_flight)
        × (s.in_flight ≡ s.bodies)
  counters_account r h = let c = Reach-Conserved r in let v = Reach-Inv r in ground arith
