-- ===== src/Provider.antt =====
-- native/include/ams_mel/abi.h, the status codes, and native/src/provider.cpp, the `catch` ladders:
-- what a call of the runtime provider may do, and the status and text that its faults become.
-- The provider is loaded at run time; a call of it is the argument `Call`.
use ams_gra_mel_bridge.Prelude.{
  ℕ, Bool, true, false, ◌&&◌, not, Option, none, some, List, [], ◌∷◌, if◌then◌else◌, codes,
}
use ams_gra_mel_bridge.Utf8.{valid_utf8}
use ams_gra_mel_bridge.Diagnostic.{Diagnostic, write_diagnostic}

pub data Status : Type 0 where
  ok invalid_argument library_load_failed symbol_not_found factory_failed : Status
  initialization_failed provider_exception buffer_too_small internal_error timeout : Status
  stream_stopped provider_failed command_rejected resource_exhausted : Status

-- An exception: `std::bad_alloc`, a `std::exception` with its `what()`, which may be null, or
-- anything else.
pub data Fault : Type 0 where
  bad_alloc : Fault
  exception : Option (List ℕ) → Fault
  unknown : Fault

pub data Call {ℓ} (A : Type ℓ) : Type ℓ where
  returned : A → Call A
  threw : Fault → Call A

abbrev pub is_empty : List ℕ → Bool
is_empty [] = true
is_empty (b ∷ bs) = false

abbrev what_text : Option (List ℕ) → List ℕ
what_text none = []
what_text (some text) = text

-- The text of `write_exception_diagnostic`: `what()` if it is valid UTF-8 and not empty.
unfoldable pub exception_text : Option (List ℕ) → List ℕ → List ℕ
exception_text what fallback =
    if not (is_empty (what_text what)) && valid_utf8 (what_text what) true
    then what_text what
    else fallback

unfoldable pub write_exception_diagnostic : Option (List ℕ) → List ℕ → Diagnostic → Diagnostic
unfolding exception_text
write_exception_diagnostic what fallback d = write_diagnostic (exception_text what fallback) d

-- The three handlers that follow each `try` block: only the status and the texts differ.
unfoldable pub caught : Status → List ℕ → List ℕ → Fault → Diagnostic → Status × Diagnostic
caught status fallback unknown_message bad_alloc d =
    (internal_error, write_diagnostic (codes "allocation failed") d)
caught status fallback unknown_message (exception what) d =
    (status, write_exception_diagnostic what fallback d)
caught status fallback unknown_message unknown d = (status, write_diagnostic unknown_message d)

unfoldable pub translate_provider_exception :
    List ℕ → List ℕ → Fault → Diagnostic → Status × Diagnostic
unfolding caught
translate_provider_exception fallback unknown_message fault d =
    caught provider_exception fallback unknown_message fault d
