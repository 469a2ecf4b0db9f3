-- ===== src/ProductRx/Create.antt =====
-- native/src/rf_product_rx.cpp: what the create worker makes of the provider's future. The result is
-- cached in CreateCompletion until it is claimed or abandoned.
use ams_gra_mel_bridge.Prelude.{
  ℕ, zero, suc, ◌+◌, ◌/◌, ◌%◌, Bool, true, false, Option, none, some, List, [], ◌∷◌, ◌++◌, ltb,
  ◌==◌, if◌then◌else◌, codes,
}
use ams_gra_mel_bridge.Utf8.{valid_utf8}
use ams_gra_mel_bridge.Provider.{
  Status, ok, timeout, provider_failed, provider_exception, internal_error, Fault, Call, returned,
  threw, exception_text,
}

pub data CreateKind : Type 0 where
  pending succeeded failed exception internal : CreateKind

-- The codes of native/include/ams_mel/abi.h.
pub data ErrorCode : Type 0 where
  none_ invalid_id invalid_state invalid_parameters insufficient_permissions : ErrorCode
  insufficient_resources insufficient_local_resources : ErrorCode
  insufficient_remote_resources unsupported : ErrorCode

-- The provider's `mel::ErrorCode`: one of the enumerators, or a number that is none of them.
pub data MelErrorCode : Type 0 where
  known : ErrorCode → MelErrorCode
  other : ℕ → MelErrorCode

-- The result and `output`.
pub map_error_code : MelErrorCode → Bool × ErrorCode
map_error_code (known code) = (true, code)
map_error_code (other n) = (false, ErrorCode.none_)

-- `std::to_string` of a number that is not negative, on fuel: a number has at most as many digits as
-- one more than its value.
digits : ℕ → ℕ → List ℕ
digits zero n = []
digits (suc fuel) n =
    (let rest = digits fuel (n / 10) in if ltb n 10 then [] else rest) ++ (48 + n % 10) ∷ []

pub decimal : ℕ → List ℕ
decimal n = digits (suc n) n

-- `current_exception_text`; `bad_alloc_what` is what the standard library's `std::bad_alloc` says.
unfoldable pub current_exception_text : List ℕ → List ℕ → List ℕ → Fault → List ℕ
current_exception_text bad_alloc_what fallback unknown_text Fault.bad_alloc =
    exception_text (some bad_alloc_what) fallback
current_exception_text bad_alloc_what fallback unknown_text (Fault.exception what) =
    exception_text what fallback
current_exception_text bad_alloc_what fallback unknown_text Fault.unknown = unknown_text

-- What `future.get()` gives: an error with its description, or an endpoint, which may be null.
pub data Result {ℓ} (E : Type ℓ) : Type ℓ where
  error : MelErrorCode → List ℕ → Result E
  value : Option E → Result E

-- The provider, as far as the worker asks it: the future, and the two getters of the endpoint, which
-- give its identifier and its format. `strings` is whether the bridge finds memory for its texts.
pub record CreateProvider {ℓ} (E : Type ℓ) : Type ℓ where
  pub future : Call (Result E)
  pub getters : E → Call (ℕ × ℕ)
  pub strings : Bool
  pub bad_alloc_what : List ℕ

pub record WorkerOutcome {ℓ} (E : Type ℓ) : Type ℓ where
  pub kind : CreateKind
  pub error_code : ErrorCode
  pub message : List ℕ
  pub endpoint : Option E
  pub info : ℕ × ℕ

module _ {ℓ} {E : Type ℓ} where
  abbrev no_outcome : WorkerOutcome E
  no_outcome = record {
    kind = CreateKind.internal;
    error_code = ErrorCode.none_;
    message = [];
    endpoint = none;
    info = (0, 0);
  }

  -- A text whose building throws is cleared where a handler of its own catches that.
  abbrev excepted : Bool → List ℕ → WorkerOutcome E
  excepted strings text = record no_outcome {
    kind = CreateKind.exception;
    message = if strings then text else [];
  }

  -- Elsewhere the outer handler makes it an internal error.
  abbrev failing : Bool → ErrorCode → List ℕ → WorkerOutcome E
  failing strings code text =
      if strings
      then record no_outcome { kind = CreateKind.failed; error_code = code; message = text }
      else record no_outcome { error_code = code }

  settle_error : Bool → MelErrorCode → List ℕ → WorkerOutcome E
  settle_error strings (known code) description = failing strings code (
      if valid_utf8 description true
      then description
      else codes "provider ProductRx creation error (invalid UTF-8 description)")
  settle_error strings (other n) description =
      failing strings ErrorCode.none_
        (codes "malformed provider ProductRx creation result: unknown MEL ErrorCode " ++ decimal n)

  settle_endpoint : CreateProvider E → ℕ → E → WorkerOutcome E
  settle_endpoint p requested_format endpoint = elim (p.getters endpoint) [
    | threw f ↦ excepted p.strings (
        current_exception_text p.bad_alloc_what
          (codes "provider ProductRxEndpoint getter exception")
          (codes "unknown provider ProductRxEndpoint getter exception") f)
    | returned (id, format) ↦
        if format == requested_format
        then record no_outcome {
          kind = CreateKind.succeeded;
          endpoint = some endpoint;
          info = (id, format);
        }
        else failing p.strings ErrorCode.none_ (
            codes "provider assigned JobDataFormat "
            ++ decimal format
            ++ codes " does not match requested ProductRxEndpoint format "
            ++ decimal requested_format)
  ]

  unfoldable pub settle : CreateProvider E → ℕ → WorkerOutcome E
  unfolding settle_error settle_endpoint
  settle p requested_format = elim p.future [
    | threw Fault.bad_alloc ↦ no_outcome
    | threw f ↦ excepted p.strings (
        current_exception_text p.bad_alloc_what (codes "provider create future exception")
          (codes "unknown provider create future exception") f)
    | returned (error code description) ↦ settle_error p.strings code description
    | returned (value none) ↦
        failing p.strings ErrorCode.none_
          (codes "malformed provider ProductRx creation result: null endpoint")
    | returned (value (some endpoint)) ↦ settle_endpoint p requested_format endpoint
  ]

unfoldable pub status_of : CreateKind → Status
status_of CreateKind.pending = timeout
status_of CreateKind.succeeded = ok
status_of CreateKind.failed = provider_failed
status_of CreateKind.exception = provider_exception
status_of CreateKind.internal = internal_error
