-- ===== src/ProductRx/Request.antt =====
-- native/src/rf_product_rx.cpp: CreateCompletion, and what its worker, Wait, Claim and Close do to it
-- under its mutex.
use ams_gra_mel_bridge.Prelude.{
  ℕ, Bool, true, false, ◌||◌, not, Option, none, some, List, [], if◌then◌else◌, is_some, codes,
}
use ams_gra_mel_bridge.Diagnostic.{Diagnostic, write_diagnostic, clear_diagnostic, bad_diagnostic}
use ams_gra_mel_bridge.Provider.{
  Status, ok, invalid_argument, timeout, provider_failed, provider_exception, internal_error, Fault,
}
use ams_gra_mel_bridge.ProductRx.Create.{
  CreateKind, pending, succeeded, ErrorCode, none_, WorkerOutcome, status_of,
}

-- Over the type of the provider's endpoints. `claim` is whether the child claim is held here; the
-- configuration that Submit puts in stays as it is, and is left out.
pub record Completion {ℓ} (E : Type ℓ) : Type ℓ where
  pub kind : CreateKind
  pub error_code : ErrorCode
  pub message : List ℕ
  pub endpoint : Option E
  pub info : ℕ × ℕ
  pub claim : Bool
  pub claimed : Bool
  pub abandoned : Bool
  pub claim_failed : Bool
  pub claim_status : Status
  pub claim_message : List ℕ

abbrev pub is_succeeded : CreateKind → Bool
is_succeeded succeeded = true
is_succeeded _ = false

-- What the critical section of Claim answers: a refusal with its text, if it writes one, or the
-- endpoint, with which the child claim goes.
pub data Attempt {ℓ} (E : Type ℓ) : Type ℓ where
  refused : Status → Option (List ℕ) → Attempt E
  taken : Option E → Bool → Completion E → Attempt E

module _ {ℓ} {E : Type ℓ} where
  -- As Submit publishes it, with the child claim acquired.
  abbrev pub submitted : Completion E
  submitted = record {
    kind = pending;
    error_code = none_;
    message = [];
    endpoint = none;
    info = (0, 0);
    claim = true;
    claimed = false;
    abandoned = false;
    claim_failed = false;
    claim_status = ok;
    claim_message = [];
  }

  -- The worker's first critical section after a failure: it takes the child claim, to release it.
  unfoldable pub take_claim : Completion E → Bool × Completion E
  take_claim c = (c.claim, record c { claim = false })

  -- The worker publishes its outcome.
  unfoldable pub publish_outcome : WorkerOutcome E → Completion E → Completion E
  publish_outcome o c =
      let published = record c { kind = o.kind; error_code = o.error_code; message = o.message } in
      if is_succeeded o.kind
      then record published { endpoint = o.endpoint; info = o.info }
      else published

  -- The condition on which the worker's wait for Claim or Close ends.
  abbrev pub worker_wakes : Completion E → Bool
  worker_wakes c = c.claimed || c.abandoned

  -- What the worker takes when it wakes: the endpoint and the child claim, unless Claim has.
  unfoldable pub take_abandoned : Completion E → Option E × Bool × Completion E
  take_abandoned c =
      if c.claimed
      then (none, false, c)
      else (c.endpoint, c.claim, record c { endpoint = none; claim = false })

  -- `ams_mel_rf_product_rx_request_wait`, whose wait has ended. `locks` is whether the mutex could be
  -- locked, the request may be null, and `out_result` is what the caller's slot holds.
  unfoldable pub request_wait :
      Bool
      → Option (Completion E)
      → Option ErrorCode
      → Diagnostic
      → Status × Option ErrorCode × Diagnostic
  request_wait locks none out_result d = (invalid_argument, out_result, clear_diagnostic d)
  request_wait locks (some c) out_result d =
      let told = write_diagnostic c.message (clear_diagnostic d) in
      if bad_diagnostic d || not (is_some out_result)
      then (invalid_argument, out_result, clear_diagnostic d)
      else if not locks
      then (
        internal_error,
        out_result,
        write_diagnostic (codes "RF ProductRx request wait failed") (clear_diagnostic d),
      )
      else elim (status_of c.kind) [
        | timeout ↦ (timeout, out_result, clear_diagnostic d)
        | ok ↦ (ok, some none_, told)
        | provider_failed ↦ (provider_failed, some c.error_code, told)
        | status ↦ (status, out_result, told)
      ]

  -- `allocates` is whether the allocations of the callback's objects succeed.
  unfoldable pub claim_locked : Bool → Completion E → Attempt E
  claim_locked allocates c =
      if not (is_succeeded c.kind)
      then elim c.kind [
        | pending ↦ refused timeout none
        | kind ↦ refused (status_of kind) (some c.message)
      ]
      else if c.claim_failed
      then refused c.claim_status (some c.claim_message)
      else if c.claimed
      then refused provider_failed (some (codes "RF ProductRx endpoint already claimed"))
      else if allocates
      then taken c.endpoint c.claim (record c { claimed = true; endpoint = none; claim = false })
      else refused internal_error (some (codes "allocation failed before RF callback registration"))

  -- The failure of a registration is cached.
  unfoldable pub cache_failure : Status → List ℕ → Completion E → Completion E
  cache_failure failure text c = record c {
    claim_failed = true;
    claim_status = failure;
    claim_message = text;
  }

  -- `ams_mel_rf_product_rx_request_close` under the mutex.
  unfoldable pub abandon : Completion E → Completion E
  abandon c = record c { abandoned = true }

-- The status of a registration that threw: what `translate_provider_exception` makes of the fault.
abbrev pub registration_failure : Fault → Status
registration_failure Fault.bad_alloc = internal_error
registration_failure (Fault.exception what) = provider_exception
registration_failure Fault.unknown = provider_exception
