-- ===== src/ProductRx/Ownership.antt =====
-- native/src/rf_product_rx.cpp: who owns the child claim and the provider's endpoint, from Submit to
-- the last release, under every interleaving of the create worker, the threads that claim or close
-- the request, and the thread that closes the endpoint.
use ams_gra_mel_bridge.Prelude.{ℕ, ◌+◌, ◌≡◌, Bool, true, false, Option, none, List, bit}
use ams_gra_mel_bridge.Provider.{Status}
use ams_gra_mel_bridge.ProductRx.Create.{CreateProvider, WorkerOutcome, settle}
use ams_gra_mel_bridge.ProductRx.Request.{
  Completion, submitted, taken, is_succeeded, take_claim, publish_outcome, worker_wakes,
  take_abandoned, claim_locked, cache_failure, abandon,
}

-- `run_create_worker`: in `settle`; with the claim of a failed create in hand; after its release;
-- in the wait for Claim or Close; with what an abandoned request left; after `endpoint.reset()`.
pub data WorkerPhase {ℓ} (E : Type ℓ) : Type ℓ where
  settling waiting dropping dropped finished : WorkerPhase E
  releasing publishing : WorkerOutcome E → WorkerPhase E

-- The owner of a claimed endpoint: not there; in the registration; handed to the caller; after a
-- registration that threw, before and after its drain (which may fail); in the public Close; drained;
-- without its endpoint; gone; or retained for ever.
pub data OwnerPhase : Type 0 where
  absent registering handed_out failing closing drained_out destroyed ended retained : OwnerPhase
  caching : Bool → OwnerPhase

pub record System {ℓ} (E : Type ℓ) : Type ℓ where
  pub completion : Completion E
  pub open completion use *
  pub worker : WorkerPhase E
  pub worker_endpoint : Option E
  pub worker_claim : Bool
  pub owner : OwnerPhase
  pub owner_endpoint : Option E
  pub owner_claim : Bool
  pub request_open : Bool
  pub released : ℕ
  pub registrations : ℕ

module _ {ℓ} {E : Type ℓ} where
  abbrev pub published : System E
  published = record {
    completion = submitted;
    worker = WorkerPhase.settling;
    worker_endpoint = none;
    worker_claim = false;
    owner = OwnerPhase.absent;
    owner_endpoint = none;
    owner_claim = false;
    request_open = true;
    released = 0;
    registrations = 0;
  }

  -- The steps of a request whose provider and format are given.
  pub data Step (p : CreateProvider E) (format : ℕ) (s t : System E) : Type ℓ where
    settle_fails :
        s.worker ≡ WorkerPhase.settling
        → is_succeeded (settle p format).kind ≡ false
        → t ≡ record s {
          completion = (take_claim s.completion).1;
          worker = WorkerPhase.releasing (settle p format);
          worker_claim = (take_claim s.completion).0;
        }
        → Step p format s t
    release_failed :
        {o : WorkerOutcome E}
        → s.worker ≡ WorkerPhase.releasing o
        → t ≡ record s {
          worker = WorkerPhase.publishing o;
          worker_claim = false;
          released = s.released + bit s.worker_claim;
        }
        → Step p format s t
    publish_failure :
        {o : WorkerOutcome E}
        → s.worker ≡ WorkerPhase.publishing o
        → t
          ≡ record s { completion = publish_outcome o s.completion; worker = WorkerPhase.finished }
        → Step p format s t
    settle_succeeds :
        s.worker ≡ WorkerPhase.settling
        → is_succeeded (settle p format).kind ≡ true
        → t ≡ record s {
          completion = publish_outcome (settle p format) s.completion;
          worker = WorkerPhase.waiting;
        }
        → Step p format s t
    wake :
        s.worker ≡ WorkerPhase.waiting
        → worker_wakes s.completion ≡ true
        → t ≡ record s {
          completion = (take_abandoned s.completion).2;
          worker = WorkerPhase.dropping;
          worker_endpoint = (take_abandoned s.completion).0;
          worker_claim = (take_abandoned s.completion).1;
        }
        → Step p format s t
    drop_endpoint :
        s.worker ≡ WorkerPhase.dropping
        → t ≡ record s { worker = WorkerPhase.dropped; worker_endpoint = none }
        → Step p format s t
    release_abandoned :
        s.worker ≡ WorkerPhase.dropped
        → t ≡ record s {
          worker = WorkerPhase.finished;
          worker_claim = false;
          released = s.released + bit s.worker_claim;
        }
        → Step p format s t
    claim_granted :
        (allocates : Bool) {held : Bool} {endpoint : Option E} {c : Completion E}
        → s.request_open ≡ true
        → claim_locked allocates s.completion ≡ taken endpoint held c
        → t ≡ record s {
          completion = c;
          owner = OwnerPhase.registering;
          owner_endpoint = endpoint;
          owner_claim = held;
          registrations = s.registrations + 1;
        }
        → Step p format s t
    register_returns :
        s.owner ≡ OwnerPhase.registering
        → t ≡ record s { owner = OwnerPhase.handed_out }
        → Step p format s t
    register_throws :
        s.owner ≡ OwnerPhase.registering
        → t ≡ record s { owner = OwnerPhase.failing }
        → Step p format s t
    failure_drains :
        (drained : Bool)
        → s.owner ≡ OwnerPhase.failing
        → t ≡ record s { owner = OwnerPhase.caching drained }
        → Step p format s t
    failure_cached :
        (failure : Status) (text : List ℕ)
        → s.owner ≡ OwnerPhase.caching true
        → t ≡ record s {
          completion = cache_failure failure text s.completion;
          owner = OwnerPhase.drained_out;
        }
        → Step p format s t
    failure_retained :
        (failure : Status) (text : List ℕ)
        → s.owner ≡ OwnerPhase.caching false
        → t ≡ record s {
          completion = cache_failure failure text s.completion;
          owner = OwnerPhase.retained;
        }
        → Step p format s t
    close_endpoint :
        s.owner ≡ OwnerPhase.handed_out
        → t ≡ record s { owner = OwnerPhase.closing }
        → Step p format s t
    close_drains :
        s.owner ≡ OwnerPhase.closing
        → t ≡ record s { owner = OwnerPhase.drained_out }
        → Step p format s t
    close_fails :
        s.owner ≡ OwnerPhase.closing
        → t ≡ record s { owner = OwnerPhase.retained }
        → Step p format s t
    destroy_endpoint :
        s.owner ≡ OwnerPhase.drained_out
        → t ≡ record s { owner = OwnerPhase.destroyed; owner_endpoint = none }
        → Step p format s t
    release_owner :
        s.owner ≡ OwnerPhase.destroyed
        → t ≡ record s {
          owner = OwnerPhase.ended;
          owner_claim = false;
          released = s.released + bit s.owner_claim;
        }
        → Step p format s t
    close_request :
        s.request_open ≡ true
        → t ≡ record s { completion = abandon s.completion; request_open = false }
        → Step p format s t
    close_request_fails :
        s.request_open ≡ true → t ≡ record s { request_open = false } → Step p format s t

  pub data Reach (p : CreateProvider E) (format : ℕ) : System E → Type ℓ where
    start : Reach p format published
    next : {s t : System E} → Reach p format s → Step p format s t → Reach p format t
