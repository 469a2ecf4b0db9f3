-- ===== src/CommonRequests/Complete.antt =====
-- native/src/common_channel_requests.cpp: what the worker of a Return request makes of the provider's
-- future, and what Wait reports of it.
use ams_gra_mel_bridge.Prelude.{
  ℕ, ◌≡◌, ◌≢◌, ◌↔◌, ◌⊎◌, inl, inr, refl, Bool, true, false, not, ◌||◌, Option, none, some, List, [],
  if◌then◌else◌, is_some, codes, arith, Bool-cases,
}
use ams_gra_mel_bridge.Utf8.{valid_utf8}
use ams_gra_mel_bridge.Diagnostic.{Diagnostic, diagnostic, bad_diagnostic}
use ams_gra_mel_bridge.Provider.{
  Status, ok, invalid_argument, timeout, command_rejected, provider_failed, provider_exception,
  internal_error, Fault, Call, returned, threw, exception_text,
}
use ams_gra_mel_bridge.ProductRx.Create.{ErrorCode, none_, MelErrorCode, known, other}

pub data CompletionKind : Type 0 where
  pending success rejected exception failure internal : CompletionKind

-- `ams_mel_ir_return_t`
pub data IrReturn : Type 0 where
  return_success bad_pointer fail not_supported not_implemented : IrReturn

-- The provider's `irmel::Return`: one of the enumerators, or another number.
pub data ProviderReturn : Type 0 where
  known_return : IrReturn → ProviderReturn
  other_return : ℕ → ProviderReturn

-- `ams_mel_ir_return_result_v1`
pub record ReturnResult : Type 0 where
  pub value : IrReturn
  pub error_code : ErrorCode

-- What the future gives: a value, which may be null, or an error with its description.
pub data Outcome : Type 0 where
  gave : Option ProviderReturn → Outcome
  refused : MelErrorCode → List ℕ → Outcome

-- ReturnCompletion, without its claim, which the worker finishes before it publishes.
pub record ReturnCompletion : Type 0 where
  pub kind : CompletionKind
  pub result : ReturnResult
  pub message : List ℕ

abbrev no_result : ReturnResult
no_result = record { value = IrReturn.return_success; error_code = none_ }

abbrev pub pending_return : ReturnCompletion
pending_return = record { kind = CompletionKind.pending; result = no_result; message = [] }

-- `future`, `finishes` and `failure_message` are what the provider and the family's claim answer;
-- `strings` is whether the texts find memory.
pub record Worker : Type 0 where
  pub future : Call Outcome
  pub strings : Bool
  pub finishes : Bool
  pub failure_message : List ℕ

abbrev texted : Bool → CompletionKind → ReturnResult → List ℕ → ReturnCompletion
texted strings kind result text =
    if strings
    then record { kind = kind; result = result; message = text }
    else record { kind = CompletionKind.internal; result = result; message = [] }

-- The `try` block of `complete_return` and its handlers.
unfoldable pub read_return : Worker → ReturnCompletion
read_return w = elim w.future [
  | returned (gave none) ↦
      texted w.strings CompletionKind.failure no_result
        (codes "provider returned null successful Return result")
  | returned (gave (some (other_return n))) ↦
      texted w.strings CompletionKind.failure no_result
        (codes "provider returned unknown IR Return value")
  | returned (gave (some (known_return value))) ↦ record {
    kind = CompletionKind.success;
    result = record { value = value; error_code = none_ };
    message = [];
  }
  | returned (refused (other n) description) ↦
      texted w.strings CompletionKind.failure no_result
        (codes "provider returned unknown MEL error code")
  | returned (refused (known code) description) ↦
      texted w.strings CompletionKind.rejected
        (record { value = IrReturn.return_success; error_code = code })
        (if valid_utf8 description true
          then description
          else codes "provider rejection description was invalid UTF-8 or contained NUL")
  | threw Fault.bad_alloc ↦ record {
    kind = CompletionKind.internal;
    result = no_result;
    message = [];
  }
  | threw (Fault.exception what) ↦ record {
    kind = CompletionKind.exception;
    result = no_result;
    message = if w.strings then exception_text what (codes "provider future exception") else [];
  }
  | threw Fault.unknown ↦ record {
    kind = CompletionKind.exception;
    result = no_result;
    message = if w.strings then codes "unknown provider future exception" else [];
  }
]

-- `complete_return`
unfoldable pub complete_return : Worker → ReturnCompletion
unfolding read_return
complete_return w = if w.finishes then read_return w else record (read_return w) {
  kind = CompletionKind.failure;
  message = if w.strings then w.failure_message else [];
}

unfoldable pub return_status : CompletionKind → Status
return_status CompletionKind.pending = timeout
return_status CompletionKind.success = ok
return_status CompletionKind.rejected = command_rejected
return_status CompletionKind.exception = provider_exception
return_status CompletionKind.failure = provider_failed
return_status CompletionKind.internal = internal_error

-- `ams_mel_ir_return_request_wait` once its wait has ended; `locks` is whether the mutex can be
-- locked, and `out` what the caller's slot holds.
unfoldable pub return_request_wait :
    Bool
    → Option ReturnCompletion
    → Option ReturnResult
    → Diagnostic
    → Status × Option ReturnResult × Diagnostic
unfolding return_status
return_request_wait locks none out d = (invalid_argument, out, diagnostic [] d)
return_request_wait locks (some c) out d0 =
    let d = diagnostic [] d0 in
    if not (is_some out) || bad_diagnostic d0
    then (invalid_argument, out, d)
    else if not locks
    then (internal_error, out, diagnostic (codes "return request wait failed") d)
    else elim c.kind [
      | CompletionKind.pending ↦ (timeout, out, d)
      | kind ↦ (return_status kind, some c.result, diagnostic c.message d)
    ]

abbrev waited : Worker → ReturnResult → Diagnostic → Status × Option ReturnResult × Diagnostic
waited w out d = return_request_wait true (some (complete_return w)) (some out) d

-- What the worker needs in order to succeed.
abbrev pub Answered : Worker → Type 0
Answered w =
    (value : IrReturn) × (w.future ≡ returned (gave (some (known_return value))))
    × (w.finishes ≡ true)

-- What is reported with `ok`.
abbrev pub Reports : Worker → Option ReturnResult → Type 0
Reports w slot =
    (value : IrReturn) × (w.future ≡ returned (gave (some (known_return value))))
    × (slot ≡ some (record { value = value; error_code = none_ }))

gives :
    (w : Worker) (out : ReturnResult) (d : Diagnostic) (f : Call Outcome)
    → bad_diagnostic d ≡ false
    → w.future ≡ f
    → (waited w out d).0 ≡ ok
    → Answered w × Reports w (waited w out d).1
unfolding return_request_wait complete_return
gives w out d (threw x) b e h = absurd (ground arith)
gives w out d (returned (gave none)) b e h = absurd (ground arith)
gives w out d (returned (gave (some (other_return n)))) b e h = absurd (ground arith)
gives w out d (returned (gave (some (known_return value)))) b e h =
    ((value, e, ground arith), (value, e, ground arith))
gives w out d (returned (refused code text)) b e h = absurd (ground arith)

ok-cases : (s : Status) → (s ≡ ok) ⊎ (s ≢ ok)
ok-cases s = ground arith

reports :
    (w : Worker) (out : ReturnResult) (d : Diagnostic)
    → bad_diagnostic d ≡ false
    → ((waited w out d).0 ≢ ok) ⊎ Reports w (waited w out d).1
reports w out d b = elim (ok-cases (waited w out d).0) [
  | inl h ↦ inr (gives w out d w.future b refl h).1
  | inr n ↦ inl n
]

abbrev Rejects : Worker → ReturnResult → Diagnostic → Type 0
Rejects w out d =
    ((waited w out d).0 ≢ command_rejected)
    ⊎ ((code : ErrorCode) × (description : List ℕ) × (w.future
          ≡ returned (refused (known code) description))
        × ((waited w out d).1
            ≡ some (record { value = IrReturn.return_success; error_code = code })))

rejects :
    (w : Worker) (out : ReturnResult) (d : Diagnostic) (f : Call Outcome)
    → bad_diagnostic d ≡ false
    → w.future ≡ f
    → Rejects w out d
unfolding return_request_wait complete_return
rejects w out d (threw x) b e = inl (λ h. ground arith)
rejects w out d (returned (gave value)) b e = inl (λ h. ground arith)
rejects w out d (returned (refused (other n) text)) b e = inl (λ h. ground arith)
rejects w out d (returned (refused (known code) text)) b e = elim (Bool-cases w.finishes) [
  | inl f ↦ elim (Bool-cases w.strings) [
    | inl t ↦ inr (code, text, e, ground arith)
    | inr t ↦ inl (λ h. ground arith)
  ]
  | inr f ↦ inl (λ h. ground arith)
]

-- After the worker has completed a request, a Wait with valid arguments does not time out; it returns
-- `ok` exactly when the provider has given a Return value that is known and the claim on the family
-- has been finished, and then reports that value; and it returns `command_rejected` only with the
-- error code that the provider gave.
pub complete_return-waited :
    (w : Worker) (out : ReturnResult) (d : Diagnostic)
    → bad_diagnostic d ≡ false
    → let r = return_request_wait true (some (complete_return w)) (some out) d in
      (r.0 ≢ timeout)
      × ((r.0 ≡ ok) ↔ Answered w)
      × ((r.0 ≢ ok) ⊎ Reports w r.1)
      × ((r.0 ≢ command_rejected)
          ⊎ ((code : ErrorCode) × (description : List ℕ) × (w.future
                ≡ returned (refused (known code) description))
              × (r.1 ≡ some (record { value = IrReturn.return_success; error_code = code }))))
unfolding return_request_wait complete_return
complete_return-waited w out d b = (
  λ h. ground arith,
  (λ h. (gives w out d w.future b refl h).0, λ (value, e, f). ground arith),
  reports w out d b,
  rejects w out d w.future b refl,
)
