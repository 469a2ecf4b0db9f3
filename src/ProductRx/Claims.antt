-- ===== src/ProductRx/Claims.antt =====
-- The child claim and the endpoint of a create request of native/src/rf_product_rx.cpp.
use ams_gra_mel_bridge.Prelude.{
  ℕ, ◌+◌, ◌≡◌, ◌≤◌, ◌⊎◌, ◌≢◌, not, inl, inr, Bool, true, false, Option, is_some, bit, arith,
}
use native.Mathlib.Decide.{dec_lt}
use ams_gra_mel_bridge.ProductRx.Create.{pending, succeeded, CreateProvider}
use ams_gra_mel_bridge.ProductRx.Request.{
  Completion, taken, is_succeeded, take_claim, publish_outcome, take_abandoned, claim_locked,
  cache_failure, abandon,
}
use ams_gra_mel_bridge.ProductRx.Settle.{settle-kind, settle-endpoint}
use ams_gra_mel_bridge.ProductRx.Ownership.{
  WorkerPhase, OwnerPhase, System, Step, settle_fails, release_failed, publish_failure,
  settle_succeeds, wake, drop_endpoint, release_abandoned, claim_granted, register_returns,
  register_throws, failure_drains, failure_cached, failure_retained, close_endpoint, close_drains,
  close_fails, destroy_endpoint, release_owner, close_request, close_request_fails, Reach, start,
  next,
}

-- Before Claim could be granted.
abbrev unclaimed : OwnerPhase → Bool
unclaimed OwnerPhase.absent = true
unclaimed _ = false

-- The owner's thread has the endpoint, and the claim.
abbrev has_endpoint : OwnerPhase → Bool
has_endpoint OwnerPhase.absent = false
has_endpoint OwnerPhase.destroyed = false
has_endpoint OwnerPhase.ended = false
has_endpoint _ = true

abbrev has_claim : OwnerPhase → Bool
has_claim OwnerPhase.absent = false
has_claim OwnerPhase.ended = false
has_claim _ = true

module _ {ℓ} {E : Type ℓ} where
  -- What the worker's phase says of the completion: whether it has been published as a success, and
  -- whether its outcome is not out yet.
  abbrev is_waiting : WorkerPhase E → Bool
  is_waiting WorkerPhase.waiting = true
  is_waiting _ = false

  abbrev is_settling : WorkerPhase E → Bool
  is_settling WorkerPhase.settling = true
  is_settling _ = false

  abbrev unsettled : WorkerPhase E → Bool
  unsettled WorkerPhase.settling = true
  unsettled (WorkerPhase.releasing o) = true
  unsettled (WorkerPhase.publishing o) = true
  unsettled _ = false

  abbrev worker_has_endpoint : WorkerPhase E → Bool
  worker_has_endpoint WorkerPhase.dropping = true
  worker_has_endpoint _ = false

  abbrev worker_has_claim : WorkerPhase E → Bool
  worker_has_claim WorkerPhase.dropping = true
  worker_has_claim WorkerPhase.dropped = true
  worker_has_claim (WorkerPhase.releasing o) = true
  worker_has_claim _ = false

  abbrev FailedOutcome : WorkerPhase E → Type 0
  FailedOutcome (WorkerPhase.releasing o) = (is_succeeded o.kind ≡ false) × (o.kind ≢ pending)
  FailedOutcome (WorkerPhase.publishing o) = (is_succeeded o.kind ≡ false) × (o.kind ≢ pending)
  FailedOutcome _ = Unit

  pub record Inv (s : System E) : Type 0 where
    -- One token.
    pub token : bit s.claim + bit s.worker_claim + bit s.owner_claim + s.released ≡ 1
    pub registered : s.registrations ≡ bit s.claimed
    pub claimed_owner : s.claimed ≡ not (unclaimed s.owner)
    pub owner_holds : s.owner_claim ≡ has_claim s.owner
    pub owner_object : is_some s.owner_endpoint ≡ has_endpoint s.owner
    pub early :
        unsettled s.worker ≡ true
        → (s.kind ≡ pending) × (is_some s.endpoint ≡ false) × (s.claimed ≡ false)
    pub late : unsettled s.worker ≡ false → s.kind ≢ pending
    pub fresh : is_settling s.worker ≡ true → s.claim ≡ true
    pub waits : is_waiting s.worker ≡ true → (s.kind ≡ succeeded)
    pub ready :
        is_waiting s.worker ≡ true
        → s.claimed ≡ false
        → (s.claim ≡ true) × (is_some s.endpoint ≡ true)
    pub emptied : s.claimed ≡ true → (s.claim ≡ false) × (is_some s.endpoint ≡ false)
    pub left : is_waiting s.worker ≡ false → is_some s.endpoint ≡ false
    pub left_claim : is_waiting s.worker ≡ false → s.claim ≡ true → is_settling s.worker ≡ true
    pub fails : FailedOutcome s.worker
    pub shut : s.abandoned ≡ true → s.request_open ≡ false
    pub woken :
        is_waiting s.worker ≡ false → s.kind ≡ succeeded → (s.claimed ≡ true) ⊎ (s.abandoned ≡ true)
    pub worker_object :
        is_some s.worker_endpoint ≡ true
        → (worker_has_endpoint s.worker ≡ true) × (s.worker_claim ≡ true)
    pub worker_token : s.worker_claim ≡ true → worker_has_claim s.worker ≡ true
    pub success : s.claimed ≡ true → s.kind ≡ succeeded
    pub drops : worker_has_claim s.worker ≡ true → unsettled s.worker ≡ false → s.kind ≡ succeeded
    pub one_object :
        s.released ≡ 1
        → (is_some s.owner_endpoint ≡ false)
          × (is_some s.endpoint ≡ false)
          × (is_some s.worker_endpoint ≡ false)

  Step-Inv :
      {p : CreateProvider E} {format : ℕ} {s t : System E} → Step p format s t → Inv s → Inv t
  unfolding take_claim publish_outcome take_abandoned claim_locked cache_failure abandon
  Step-Inv {p = p} {format = format} (settle_fails w k e) v = ground (arith, settle-kind p format)
  Step-Inv (release_failed w e) v = ground arith
  Step-Inv (publish_failure w e) v = ground arith
  Step-Inv {p = p} {format = format} (settle_succeeds w k e) v =
      ground (arith, settle-kind p format, settle-endpoint p format)
  Step-Inv (wake w k e) v = ground arith
  Step-Inv (drop_endpoint w e) v = ground arith
  Step-Inv (release_abandoned w e) v = ground arith
  Step-Inv (claim_granted allocates o g e) v = ground arith
  Step-Inv (register_returns w e) v = ground arith
  Step-Inv (register_throws w e) v = ground arith
  Step-Inv (failure_drains d w e) v = ground arith
  Step-Inv (failure_cached f x w e) v = ground arith
  Step-Inv (failure_retained f x w e) v = ground arith
  Step-Inv (close_endpoint w e) v = ground arith
  Step-Inv (close_drains w e) v = ground arith
  Step-Inv (close_fails w e) v = ground arith
  Step-Inv (destroy_endpoint w e) v = ground arith
  Step-Inv (release_owner w e) v = ground arith
  Step-Inv (close_request o e) v = ground arith
  Step-Inv (close_request_fails o e) v = ground arith

  pub Reach-Inv : {p : CreateProvider E} {format : ℕ} {s : System E} → Reach p format s → Inv s
  Reach-Inv start = ground arith
  Reach-Inv (next r st) = Step-Inv st (Reach-Inv r)

  -- The child claim of a request is in exactly one place, the completion, the worker or the owner of
  -- the claimed endpoint, until it is released, once; and when it is released, none of the three
  -- holds the provider's endpoint any more. The callback is registered at most once.
  pub claim_is_one :
      {p : CreateProvider E} {format : ℕ} {s : System E}
      → Reach p format s
      → (bit s.claim + bit s.worker_claim + bit s.owner_claim + s.released ≡ 1)
        × ((s.released ≡ 0)
            ⊎ ((is_some s.endpoint ≡ false)
                × (is_some s.worker_endpoint ≡ false)
                × (is_some s.owner_endpoint ≡ false)))
        × (s.registrations ≤ 1)
  claim_is_one {s = s} r =
      let v = Reach-Inv r in
      (
        v.token,
        elim (dec_lt 0 s.released) [ yes h ↦ inr (ground arith) | no h ↦ inl (omega arith) ],
        ground arith,
      )

  -- When a caller can see that the creation has failed, the child claim has been released.
  pub failure_is_released :
      {p : CreateProvider E} {format : ℕ} {s : System E}
      → Reach p format s
      → s.kind ≢ pending
      → s.kind ≢ succeeded
      → (s.released ≡ 1) × (s.registrations ≡ 0)
  failure_is_released r h k = let v = Reach-Inv r in ground arith

  -- A Claim that is granted on an open request takes an endpoint that is there, and the child claim
  -- with it, and it is the first one granted.
  pub granted_is_full :
      {p : CreateProvider E} {format : ℕ} {s : System E} (allocates : Bool) (endpoint : Option E)
      (held : Bool) (c : Completion E)
      → Reach p format s
      → s.request_open ≡ true
      → claim_locked allocates s.completion ≡ taken endpoint held c
      → (is_some endpoint ≡ true) × (held ≡ true) × (s.registrations ≡ 0) × (c.claimed ≡ true)
  unfolding claim_locked
  granted_is_full allocates endpoint held c r o g = let v = Reach-Inv r in ground arith
