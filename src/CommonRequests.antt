-- ===== src/CommonRequests.antt =====
-- native/src/common_channel_requests.cpp: the submission of a request on an IR channel, which all
-- families of channels share. Complete has the worker of a Return request.
pub mod Balance
pub mod Complete
pub mod Comms
pub mod Channel
pub mod Worker
use ams_gra_mel_bridge.Prelude.{
  ℕ, Bool, true, false, not, Option, none, some, List, if◌then◌else◌, codes,
}
use ams_gra_mel_bridge.Diagnostic.{Diagnostic, diagnostic}
use ams_gra_mel_bridge.Provider.{
  Status, ok, provider_failed, provider_exception, internal_error, resource_exhausted, Fault, Call,
  returned, threw, exception_text,
}
use ams_gra_mel_bridge.Admission.{
  CompletionAdmission, Permit, release_permit, acquire_completion_permit,
}

-- How the launch of the worker ends: well, or with a `std::bad_alloc`, or with another exception.
pub data Launch : Type 0 where
  launched no_memory no_thread : Launch

-- What a submission meets: whether the objects of the request can be allocated, whether the family's
-- state is still alive, the Session's admission, what the family's claim does (and if it throws,
-- whether it had counted the request before), what the provider's send does, and the launch.
pub record Circumstances : Type 0 where
  pub allocates : Bool
  pub alive : Bool
  pub admission : Option CompletionAdmission
  pub claim : Call Bool
  pub claimed_first : Bool
  pub send : Call (Unit {0})
  pub launch : Launch
  pub bad_alloc_what : List ℕ

-- The family's count of the request: never taken, finished, held by the worker, or kept for ever.
pub data ClaimFate : Type 0 where
  unclaimed finished with_worker kept : ClaimFate

pub record Sent : Type 0 where
  pub status : Status
  pub published : Bool
  pub claim : ClaimFate
  pub admission : Option CompletionAdmission
  pub diagnostic : Diagnostic

-- The permit of a request that is destroyed.
abbrev give_back : Permit → Option CompletionAdmission → Option CompletionAdmission
give_back permit none = none
give_back permit (some a) = some (release_permit permit a)

-- A failure.
abbrev failed : Status → ClaimFate → Option CompletionAdmission → Diagnostic → Sent
failed status claim admission d = record {
  status = status;
  published = false;
  claim = claim;
  admission = admission;
  diagnostic = d;
}

abbrev send_text : List ℕ → Fault → List ℕ
send_text bad_alloc_what Fault.bad_alloc =
    exception_text (some bad_alloc_what) (codes "provider send exception")
send_text bad_alloc_what (Fault.exception what) =
    exception_text what (codes "provider send exception")
send_text bad_alloc_what Fault.unknown = codes "unknown provider send exception"

-- From the provider's send on, with the permit and the claim.
pub send_claimed : Circumstances → Permit → Option CompletionAdmission → Diagnostic → Sent
send_claimed w permit admission d = elim w.send [
  | threw f ↦
      failed provider_exception ClaimFate.finished (give_back permit admission)
        (diagnostic (send_text w.bad_alloc_what f) d)
  | returned _ ↦ elim w.launch [
    | Launch.launched ↦ record {
      status = ok;
      published = true;
      claim = ClaimFate.with_worker;
      admission = admission;
      diagnostic = d;
    }
    | Launch.no_memory ↦
        failed internal_error ClaimFate.kept admission
          (diagnostic (codes "facade allocation failed after provider send") d)
    | Launch.no_thread ↦
        failed internal_error ClaimFate.kept admission
          (diagnostic (codes "facade worker launch failed") d)
  ]
]

-- `submit_common`
pub submit_common : Circumstances → Diagnostic → Sent
unfolding send_claimed
submit_common w d =
    let (granted, permit, admission) = acquire_completion_permit w.admission false in
    if not w.allocates
    then failed internal_error ClaimFate.unclaimed w.admission
        (diagnostic (codes "allocation failed before provider send") d)
    else if not w.alive
    then failed provider_failed ClaimFate.unclaimed w.admission
        (diagnostic (codes "common channel is no longer available") d)
    else if not granted
    then failed resource_exhausted ClaimFate.unclaimed admission
        (diagnostic (codes "async request limit reached") d)
    else elim w.claim [
      | threw f ↦
          if w.claimed_first
          then failed internal_error ClaimFate.kept admission
              (diagnostic (codes "common channel submission lock failed") d)
          else failed internal_error ClaimFate.unclaimed (give_back permit admission)
              (diagnostic (codes "common channel submission lock failed") d)
      | returned false ↦
          failed provider_failed ClaimFate.unclaimed (give_back permit admission)
            (diagnostic (codes "common channel is not available") d)
      | returned true ↦ send_claimed w permit admission d
    ]

-- `CommonRequestClaim::finish` of a claim that holds a family's state or not: what it returns,
-- given what the family's finish function answers, the claim, and how often that function is
-- called.
unfoldable pub finish_claim : Bool → Bool → Bool × Bool × ℕ
finish_claim answers false = (true, false, 0)
finish_claim answers true = (answers, false, 1)

-- `operator=` from another claim, or from itself: both claims, and the calls of the finish function.
unfoldable pub assign_claim : Bool → Bool → Bool → Bool → Bool × Bool × ℕ
unfolding finish_claim
assign_claim itself answers held other =
    if itself then (held, other, 0) else (other, false, (finish_claim answers held).2)
