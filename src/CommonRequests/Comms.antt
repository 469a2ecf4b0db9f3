-- ===== src/CommonRequests/Comms.antt =====
-- native/src/common_channel_requests.cpp: the completion of a CommsTest request and its Wait, and
-- the Close of a request of either kind.
use ams_gra_mel_bridge.Prelude.{
  ℕ, Bool, true, not, ◌||◌, Option, none, some, List, [], if◌then◌else◌, is_some, codes,
}
use ams_gra_mel_bridge.Utf8.{valid_utf8}
use ams_gra_mel_bridge.Diagnostic.{Diagnostic, diagnostic, bad_diagnostic}
use ams_gra_mel_bridge.Provider.{
  Status, ok, invalid_argument, timeout, internal_error, Fault, Call, returned, threw,
  exception_text,
}
use ams_gra_mel_bridge.ProductRx.Create.{ErrorCode, none_, MelErrorCode, known, other}
use ams_gra_mel_bridge.CommonRequests.Complete.{CompletionKind, return_status}

-- `ams_mel_ir_channel_comms_test_result_v1`
pub record CommsResult : Type 0 where
  pub command_id : ℕ
  pub request_id : ℕ
  pub error_code : ErrorCode

-- What the future gives: the two numbers of a reply, which may be null, or an error with its
-- description.
pub data CommsOutcome : Type 0 where
  replied : Option (ℕ × ℕ) → CommsOutcome
  refused : MelErrorCode → List ℕ → CommsOutcome

-- CommsCompletion, without its claim, which the worker finishes before it publishes.
pub record CommsCompletion : Type 0 where
  pub kind : CompletionKind
  pub result : CommsResult
  pub message : List ℕ

-- As Worker of Complete.
pub record CommsWorker : Type 0 where
  pub future : Call CommsOutcome
  pub strings : Bool
  pub finishes : Bool
  pub failure_message : List ℕ

abbrev no_result : CommsResult
no_result = record { command_id = 0; request_id = 0; error_code = none_ }

abbrev texted : Bool → CompletionKind → CommsResult → List ℕ → CommsCompletion
texted strings kind result text =
    if strings
    then record { kind = kind; result = result; message = text }
    else record { kind = CompletionKind.internal; result = result; message = [] }

abbrev excepted : CompletionKind → List ℕ → CommsCompletion
excepted kind text = record { kind = kind; result = no_result; message = text }

-- The `try` block of `complete_comms` and its handlers.
unfoldable pub read_comms : CommsWorker → CommsCompletion
read_comms w = elim w.future [
  | returned (replied none) ↦
      texted w.strings CompletionKind.failure no_result
        (codes "provider returned null successful CommsTest result")
  | returned (replied (some (command, request))) ↦ record {
    kind = CompletionKind.success;
    result = record { command_id = command; request_id = request; error_code = none_ };
    message = [];
  }
  | returned (refused (other n) description) ↦
      texted w.strings CompletionKind.failure no_result
        (codes "provider returned unknown MEL error code")
  | returned (refused (known code) description) ↦
      texted w.strings CompletionKind.rejected (record no_result { error_code = code })
        (if valid_utf8 description true
          then description
          else codes "provider rejection description was invalid UTF-8 or contained NUL")
  | threw Fault.bad_alloc ↦ excepted CompletionKind.internal []
  | threw (Fault.exception what) ↦
      excepted CompletionKind.exception
        (if w.strings then exception_text what (codes "provider future exception") else [])
  | threw Fault.unknown ↦
      excepted CompletionKind.exception
        (if w.strings then codes "unknown provider future exception" else [])
]

-- `complete_comms`
unfoldable pub complete_comms : CommsWorker → CommsCompletion
unfolding read_comms
complete_comms w = if w.finishes then read_comms w else record (read_comms w) {
  kind = CompletionKind.failure;
  message = if w.strings then w.failure_message else [];
}

-- `ams_mel_ir_channel_comms_request_wait` once its wait has ended, as `return_request_wait`.
unfoldable pub comms_request_wait :
    Bool
    → Option CommsCompletion
    → Option CommsResult
    → Diagnostic
    → Status × Option CommsResult × Diagnostic
comms_request_wait locks none out d = (invalid_argument, out, diagnostic [] d)
comms_request_wait locks (some c) out d0 =
    let d = diagnostic [] d0 in
    if not (is_some out) || bad_diagnostic d0
    then (invalid_argument, out, d)
    else if not locks
    then (internal_error, out, diagnostic (codes "CommsTest request wait failed") d)
    else elim c.kind [
      | CompletionKind.pending ↦ (timeout, out, d)
      | kind ↦ (return_status kind, some c.result, diagnostic c.message d)
    ]

-- `ams_mel_ir_return_request_close` of a request that holds an `A`: the slot is `none` for a null
-- pointer. The worker goes on with the completion.
unfoldable pub return_request_close :
    {A : Type 0} → Option (Option A) → Diagnostic → Status × Option (Option A) × Diagnostic
return_request_close slot d0 =
    let d = diagnostic [] d0 in
    if not (is_some slot) || bad_diagnostic d0
    then (invalid_argument, slot, d)
    else (ok, some none, d)

-- `ams_mel_ir_channel_comms_request_close`
pub comms_request_close :
    {A : Type 0} → Option (Option A) → Diagnostic → Status × Option (Option A) × Diagnostic
comms_request_close = return_request_close
