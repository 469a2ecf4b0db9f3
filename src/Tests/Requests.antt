-- ===== src/Tests/Requests.antt =====
-- A submission of native/src/common_channel_requests.cpp whose worker cannot be launched.
use ams_gra_mel_bridge.Prelude.{◌+◌, ◌≡◌, ◌↔◌, ◌⊎◌, refl, true, some, none, [], arith, ◌≢◌}
use ams_gra_mel_bridge.Diagnostic.{Diagnostic}
use ams_gra_mel_bridge.Provider.{ok, returned}
use ams_gra_mel_bridge.Admission.{CompletionAdmission}
use ams_gra_mel_bridge.CommonRequests.{
  Circumstances, Launch, unclaimed, finished, with_worker, kept, submit_common,
}
use ams_gra_mel_bridge.CommonRequests.Balance.{submit_common-balance, IsSent, IsClaimLost}

abbrev half_full : CompletionAdmission
half_full = record { maximum = 2; active = 1 }

abbrev threadless : Circumstances
threadless = record {
  allocates = true;
  alive = true;
  admission = some half_full;
  claim = returned true;
  claimed_first = true;
  send = returned tt;
  launch = Launch.no_thread;
  bad_alloc_what = [];
}

abbrev no_text : Diagnostic
no_text = record { buffer = none; capacity = 0; required = none }

submit_common-balance_example :
    let r = submit_common threadless no_text in
    ((r.status ≡ ok) ↔ (r.claim ≡ with_worker))
    × ((r.published ≡ true) ↔ (r.claim ≡ with_worker))
    × ((r.claim ≡ with_worker)
        ↔ (IsSent threadless half_full × (threadless.launch ≡ Launch.launched)))
    × ((r.claim ≡ kept) ↔ (
        (IsSent threadless half_full × (threadless.launch ≢ Launch.launched))
        ⊎ IsClaimLost threadless half_full))
    × ((((r.claim ≡ with_worker) ⊎ (r.claim ≡ kept))
          × (r.admission ≡ some (record half_full { active = half_full.active + 1 })))
        ⊎ (((r.claim ≡ unclaimed) ⊎ (r.claim ≡ finished)) × (r.admission ≡ some half_full)))
submit_common-balance_example =
    submit_common-balance threadless half_full no_text (omega arith) (omega arith) refl
