-- ===== src/Tests/Create.antt =====
-- A create request of native/src/rf_product_rx.cpp that is abandoned, and one that is claimed.
use ams_gra_mel_bridge.Prelude.{
  ℕ, ◌+◌, ◌≡◌, ◌≢◌, ◌≤◌, ◌⊎◌, refl, true, false, none, some, is_some, bit, codes,
}
use ams_gra_mel_bridge.Diagnostic.{Diagnostic}
use ams_gra_mel_bridge.Provider.{returned, threw, unknown}
use ams_gra_mel_bridge.RfParent.{no_outcome}
use ams_gra_mel_bridge.ProductRx.Create.{pending, succeeded, failed, CreateProvider, value, settle}
use ams_gra_mel_bridge.ProductRx.Request.{
  Completion, submitted, taken, take_claim, publish_outcome, take_abandoned, claim_locked, abandon,
}
use ams_gra_mel_bridge.ProductRx.Ownership.{
  WorkerPhase, System, published, Reach, start, next, settle_fails, release_failed, publish_failure,
  settle_succeeds, wake, close_request,
}
use ams_gra_mel_bridge.ProductRx.Claims.{claim_is_one}
use ams_gra_mel_bridge.ProductRx.Abandoned.{abandoned_ends, Works}
use ams_gra_mel_bridge.ProductRx.Submit.{Config, Circumstances}
use ams_gra_mel_bridge.ProductRx.Entry.{Registration, request_claim}

abbrev no_text : Diagnostic
no_text = record { buffer = none; capacity = 0; required = none }

-- The provider's endpoint is the number 5; its identifier is 11 and its format ComplexINT16.
abbrev giving : CreateProvider ℕ
giving = record {
  future = returned (value (some 5));
  getters = λ endpoint. returned (11, 3);
  strings = true;
  bad_alloc_what = codes "std::bad_alloc";
}

abbrev refusing : CreateProvider ℕ
refusing = record giving { future = returned (value none) }

-- The worker waits with the endpoint.
abbrev cached : Completion ℕ
cached = record submitted { kind = succeeded; endpoint = some 5; info = (11, 3) }

abbrev ready : System ℕ
ready = record published { completion = cached; worker = WorkerPhase.waiting }

ready-Reach : Reach giving 3 ready
unfolding publish_outcome settle
ready-Reach = next start (settle_succeeds refl refl refl)

-- The request is closed without a claim, and the worker has woken.
abbrev dropping : System ℕ
dropping = record ready {
  completion = record cached { endpoint = none; claim = false; abandoned = true };
  worker = WorkerPhase.dropping;
  worker_endpoint = some 5;
  worker_claim = true;
  request_open = false;
}

dropping-Reach : Reach giving 3 dropping
unfolding abandon take_abandoned
dropping-Reach = next (next ready-Reach (close_request refl refl)) (wake refl refl refl)

-- The creation has failed, and the failure is published.
abbrev failing : System ℕ
failing = record published {
  completion = record submitted {
    kind = failed;
    message = codes "malformed provider ProductRx creation result: null endpoint";
    claim = false;
  };
  worker = WorkerPhase.finished;
  released = 1;
}

failing-Reach : Reach refusing 3 failing
unfolding publish_outcome take_claim settle
failing-Reach =
    next (next (next start (settle_fails refl refl refl)) (release_failed refl refl))
      (publish_failure refl refl)

claim_is_one_example :
    (bit dropping.claim + bit dropping.worker_claim + bit dropping.owner_claim + dropping.released
      ≡ 1)
    × ((dropping.released ≡ 0)
        ⊎ ((is_some dropping.endpoint ≡ false)
            × (is_some dropping.worker_endpoint ≡ false)
            × (is_some dropping.owner_endpoint ≡ false)))
    × (dropping.registrations ≤ 1)
claim_is_one_example = claim_is_one dropping-Reach

not_pending : failed ≢ pending
not_pending e = cc

not_succeeded : failed ≢ succeeded
not_succeeded e = cc

abandoned_ends_example :
    (t : System ℕ) × Works giving 3 dropping t × (t.released ≡ 1) × (t.registrations ≡ 0)
abandoned_ends_example = abandoned_ends dropping-Reach refl refl

abbrev claimed : Completion ℕ
claimed = record cached { claimed = true; endpoint = none; claim = false }

ready_granted : claim_locked true cached ≡ taken (some 5) true claimed
unfolding claim_locked
ready_granted = refl

abbrev throwing : Registration
throwing = record {
  locks = true;
  allocates = true;
  register = threw unknown;
  strings = true;
  drained = true;
  release = no_outcome;
  bad_alloc_what = codes "std::bad_alloc";
}

abbrev registering : Registration
registering = record throwing { register = returned tt }

throwing_registers : (request_claim throwing cached true no_text).registered ≡ true
unfolding request_claim claim_locked
throwing_registers = refl

abbrev calm : Circumstances
calm = record {
  allocates = true;
  acquire_locks = true;
  release_locks = true;
  create = returned true;
  launches = true;
  shutdown = returned tt;
  bad_alloc_what = codes "std::bad_alloc";
}

abbrev small : Config
small = record {
  data_format = 3;
  region_size_bytes = 4096;
  queue_capacity = 2;
  max_samples_per_event = 8;
}
