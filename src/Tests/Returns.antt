-- ===== src/Tests/Returns.antt =====
-- A Return request of native/src/common_channel_requests.cpp whose answer is known, and the launch
-- of a worker.
use ams_gra_mel_bridge.Prelude.{
  ℕ, ◌≡◌, ◌≢◌, ◌↔◌, ◌⊎◌, refl, true, false, some, none, List, [], arith,
}
use ams_gra_mel_bridge.Diagnostic.{Diagnostic}
use ams_gra_mel_bridge.Provider.{ok, timeout, command_rejected, returned}
use ams_gra_mel_bridge.ProductRx.Create.{ErrorCode, none_, known}
use ams_gra_mel_bridge.CommonRequests.Complete.{
  IrReturn, known_return, gave, refused, ReturnResult, Worker, complete_return, return_request_wait,
  complete_return-waited, Answered, Reports,
}
use ams_gra_mel_bridge.CommonRequests.Worker.{
  System, prepared, absent, finished, published, launch_failed, begun, launcher_done, is_caught,
  sent, create, detach, disarm, publish, begin, complete, Reach, start, next, launch_settles,
}

abbrev no_text : Diagnostic
no_text = record { buffer = none; capacity = 0; required = none }

abbrev answered : Worker
answered = record {
  future = returned (gave (some (known_return IrReturn.not_supported)));
  strings = true;
  finishes = true;
  failure_message = [];
}

abbrev slot : ReturnResult
slot = record { value = IrReturn.return_success; error_code = none_ }

complete_return-waited_example :
    let r = return_request_wait true (some (complete_return answered)) (some slot) no_text in
    (r.0 ≢ timeout)
    × ((r.0 ≡ ok) ↔ Answered answered)
    × ((r.0 ≢ ok) ⊎ Reports answered r.1)
    × ((r.0 ≢ command_rejected)
        ⊎ ((code : ErrorCode) × (description : List ℕ) × (answered.future
              ≡ returned (refused (known code) description))
            × (r.1 ≡ some (record { value = IrReturn.return_success; error_code = code }))))
complete_return-waited_example = complete_return-waited answered slot no_text refl

-- A launch that goes well, to the end of the worker.
abbrev settled : System
settled = record prepared {
  input = record { launch_state = 1; emergency_self = false; retained = false };
  launcher = published;
  worker = finished;
}

settled-Reach : Reach settled
settled-Reach =
    next
      (next
        (next
          (next (next (next (next start (sent refl refl)) (create refl refl)) (detach refl refl))
            (disarm refl refl))
          (publish refl refl))
        (begin refl (λ e. ground arith) refl))
      (complete refl refl)

launch_settles_example :
    ((begun settled.worker ≡ false) ⊎ (launcher_done settled.launcher ≡ true))
    × ((settled.launcher ≢ published)
        ⊎ ((settled.worker ≢ absent)
            × (settled.launch_state ≡ 1)
            × (settled.emergency_self ≡ is_caught settled.worker)
            × (settled.retained ≡ is_caught settled.worker)))
    × ((settled.launcher ≢ launch_failed)
        ⊎ ((settled.emergency_self ≡ true) × (settled.retained ≡ true)))
launch_settles_example = launch_settles settled-Reach
