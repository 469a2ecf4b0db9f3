-- ===== src/ProductRx/Queue.antt =====
-- The queue of an endpoint of native/src/rf_product_rx.cpp.
use ams_gra_mel_bridge.Prelude.{ℕ, ◌≤◌, ◌≡◌, ◌⊎◌, [], ◌∷◌, ◌++◌, length, length-append, arith}
use ams_gra_mel_bridge.ProductRx.Callback.{
  receiving, closed, accepted, malformed, allocation_failure, callback_enters, callback_leaves,
  logical_close, receive,
}
use ams_gra_mel_bridge.ProductRx.Interleaving.{
  System, Step, enter, leave, take, close, drain, destroy_endpoint, release_claim, close_lock_fails,
  drain_lock_fails, Reach, start, next,
}

module _ {ℓ} {A : Type ℓ} where
  pub record Inv (capacity : ℕ) (s : System A) : Type ℓ where
    pub limit : s.queue_capacity ≡ capacity
    pub bounded : length s.queue ≤ capacity
    pub inside : s.in_flight ≡ s.bodies
    pub discarded : (s.lifecycle ≡ receiving) ⊎ (s.queue ≡ [])
    pub uncleared : (s.cleared ≡ []) ⊎ (s.lifecycle ≡ closed)

  Step-Inv : {capacity : ℕ} {s t : System A} → Step s t → Inv capacity s → Inv capacity t
  unfolding callback_enters callback_leaves logical_close receive
  Step-Inv (enter e) v = ground arith
  Step-Inv {s = s} (leave pushes (accepted event) new g a e) v =
      ground (arith, length-append s.queue (event ∷ []))
  Step-Inv (leave pushes malformed new g a e) v = ground arith
  Step-Inv (leave pushes allocation_failure new g a e) v = ground arith
  Step-Inv (take e) v = ground arith
  Step-Inv (close g e) v = ground arith
  Step-Inv (drain g h e) v = ground arith
  Step-Inv (destroy_endpoint g e) v = ground arith
  Step-Inv (release_claim g e) v = ground arith
  Step-Inv (close_lock_fails g e) v = ground arith
  Step-Inv (drain_lock_fails g e) v = ground arith

  pub Reach-Inv : {capacity : ℕ} {s : System A} → Reach capacity s → Inv capacity s
  Reach-Inv start = ground arith
  Reach-Inv (next r st) = Step-Inv st (Reach-Inv r)

  -- Every product queued is delivered, or cleared by Close, or still queued, in the order in which
  -- they came.
  abbrev Ordered : System A → Type ℓ
  Ordered s = s.delivered ++ (s.cleared ++ s.queue) ≡ s.stored
