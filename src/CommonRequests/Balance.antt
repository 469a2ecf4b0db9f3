-- ===== src/CommonRequests/Balance.antt =====
-- The permit and the claim of a submission of native/src/common_channel_requests.cpp.
use ams_gra_mel_bridge.Prelude.{◌+◌, ◌^◌, ◌≡◌, ◌≢◌, ◌≤◌, ◌<◌, ◌↔◌, ◌⊎◌, true, some, arith}
use ams_gra_mel_bridge.Diagnostic.{Diagnostic}
use ams_gra_mel_bridge.Provider.{ok, Fault, returned, threw}
use ams_gra_mel_bridge.Admission.{CompletionAdmission, release_permit, acquire_completion_permit}
use ams_gra_mel_bridge.CommonRequests.{
  Circumstances, Launch, unclaimed, finished, with_worker, kept, submit_common,
}

-- The provider has got the request, or may have: everything before its send has gone well, and the
-- send has returned.
abbrev pub IsSent : Circumstances → CompletionAdmission → Type 0
IsSent w a =
    (w.allocates ≡ true)
    × (w.alive ≡ true)
    × (a.active < a.maximum)
    × (w.claim ≡ returned true)
    × (w.send ≡ returned tt)

-- The family's claim function has thrown after it has counted the request.
abbrev pub IsClaimLost : Circumstances → CompletionAdmission → Type 0
IsClaimLost w a =
    (w.allocates ≡ true)
    × (w.alive ≡ true)
    × (a.active < a.maximum)
    × ((f : Fault) × (w.claim ≡ threw f))
    × (w.claimed_first ≡ true)

module _ (w : Circumstances) (a : CompletionAdmission) (d : Diagnostic) (word : a.maximum < 2 ^ 32)
    (below : a.active ≤ a.maximum) (e : w.admission ≡ some a) where
  submit_common-outcome :
      (((submit_common w d).status ≡ ok) ↔ ((submit_common w d).claim ≡ with_worker))
      × (((submit_common w d).published ≡ true) ↔ ((submit_common w d).claim ≡ with_worker))
      × (((((submit_common w d).claim ≡ with_worker) ⊎ ((submit_common w d).claim ≡ kept))
            × ((submit_common w d).admission ≡ some (record a { active = a.active + 1 })))
          ⊎ ((((submit_common w d).claim ≡ unclaimed) ⊎ ((submit_common w d).claim ≡ finished))
              × ((submit_common w d).admission ≡ some a)))
  unfolding submit_common acquire_completion_permit release_permit
  submit_common-outcome = ground arith

  worker-IsSent :
      (submit_common w d).claim ≡ with_worker → IsSent w a × (w.launch ≡ Launch.launched)
  unfolding submit_common acquire_completion_permit
  worker-IsSent h = ground arith

  IsSent-worker : IsSent w a → w.launch ≡ Launch.launched → (submit_common w d).claim ≡ with_worker
  unfolding submit_common acquire_completion_permit
  IsSent-worker s l = ground arith

  kept-IsSent :
      (submit_common w d).claim ≡ kept
      → (IsSent w a × (w.launch ≢ Launch.launched)) ⊎ IsClaimLost w a
  unfolding submit_common acquire_completion_permit
  kept-IsSent h = ground arith

  IsSent-kept :
      (IsSent w a × (w.launch ≢ Launch.launched)) ⊎ IsClaimLost w a
      → (submit_common w d).claim ≡ kept
  unfolding submit_common acquire_completion_permit
  IsSent-kept s = ground arith

-- A submission with a limit on the requests takes a slot of the admission exactly as long as the
-- family's count. It goes to a worker, and the call returns `ok` and publishes the request, exactly
-- when all is allocated, the channel is alive, a permit is free, the family grants the claim, the
-- provider's send returns, and the worker is launched. Both are kept for ever exactly when the send
-- has returned and no worker is launched, or when the family's claim function throws after it has
-- counted the request. Else both are as before.
pub submit_common-balance :
    (w : Circumstances) (a : CompletionAdmission) (d : Diagnostic)
    → a.maximum < 2 ^ 32
    → a.active ≤ a.maximum
    → w.admission ≡ some a
    → let r = submit_common w d in
      ((r.status ≡ ok) ↔ (r.claim ≡ with_worker))
      × ((r.published ≡ true) ↔ (r.claim ≡ with_worker))
      × ((r.claim ≡ with_worker) ↔ (IsSent w a × (w.launch ≡ Launch.launched)))
      × ((r.claim ≡ kept) ↔ ((IsSent w a × (w.launch ≢ Launch.launched)) ⊎ IsClaimLost w a))
      × ((((r.claim ≡ with_worker) ⊎ (r.claim ≡ kept))
            × (r.admission ≡ some (record a { active = a.active + 1 })))
          ⊎ (((r.claim ≡ unclaimed) ⊎ (r.claim ≡ finished)) × (r.admission ≡ some a)))
submit_common-balance w a d word below e =
    let (replied, out, balanced) = submit_common-outcome w a d word below e in
    (
      replied,
      out,
      (worker-IsSent w a d word below e, λ (s, l). IsSent-worker w a d word below e s l),
      (kept-IsSent w a d word below e, λ s. IsSent-kept w a d word below e s),
      balanced,
    )
