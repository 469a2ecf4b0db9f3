-- ===== src/Session.antt =====
-- native/src/provider.cpp, `open_session_impl`, `ams_mel_session_open`,
-- `ams_mel_session_open_with_options`, `ams_mel_session_get_provider_version` and
-- `ams_mel_session_close`, with SessionState of native/src/internal.hpp.
-- A log lists what is built and destroyed, in the order of C++: locals and members in reverse.
pub mod Lifetimes
use ams_gra_mel_bridge.Prelude.{
  ℕ, Bool, true, false, ◌&&◌, ◌||◌, not, Option, none, some, List, [], ◌∷◌, ◌++◌, ◌==◌,
  if◌then◌else◌, is_some, codes,
}
use ams_gra_mel_bridge.Diagnostic.{Diagnostic, write_diagnostic, clear_diagnostic, bad_diagnostic}
use ams_gra_mel_bridge.Provider.{
  Status, ok, invalid_argument, library_load_failed, symbol_not_found, factory_failed,
  initialization_failed, provider_exception, Fault, Call, returned, threw, caught,
  translate_provider_exception, write_exception_diagnostic,
}
use ams_gra_mel_bridge.Loader.{Loader, shared_library, symbol}
use ams_gra_mel_bridge.Version.{
  VersionInfo, ProviderVersion, publish_provider_version, valid_provider_version_output,
}

pub data Object : Type 0 where
  library manager control : Object

pub data Event : Type 0 where
  built : Object → Event
  destroyed : Object → Event

-- The IR provider behind the two factories: each call may throw, the factories may return null, and
-- `init` returns whether it reports success. `allocation` is that of the Session's own objects.
pub record IrProvider : Type 0 where
  pub loader : Loader
  pub make_manager : Call Bool
  pub make_control : Call Bool
  pub init : Call Bool
  pub allocation : Call (Unit {0})
  pub version : Call VersionInfo

-- SessionState, without the provider objects that the log follows. `admission` is the limit on
-- asynchronous requests, if there is one.
pub record SessionState : Type 0 where
  pub admission : Option ℕ
  pub instance_name : List ℕ

-- The pointer arguments; `none` is null. `out_session` holds what the caller's slot holds.
pub record OpenArguments : Type 0 where
  pub library_path : Option (List ℕ)
  pub instance_name : Option (List ℕ)
  pub aperture_config_id : Option (List ℕ)
  pub out_session : Option (Option SessionState)

pub record Opened : Type 0 where
  pub status : Status
  pub session : Option SessionState
  pub diagnostic : Diagnostic
  pub log : List Event

abbrev slot_taken : Option (Option SessionState) → Bool
slot_taken none = true
slot_taken (some none) = false
slot_taken (some (some s)) = true

abbrev invalid_open : OpenArguments → Diagnostic → Bool
invalid_open a d =
    not (is_some a.library_path)
    || (not (is_some a.instance_name)
        || (not (is_some a.aperture_config_id) || (slot_taken a.out_session || bad_diagnostic d)))

-- A failure publishes no session.
abbrev refused : Status × Diagnostic → List Event → Opened
refused (s, d) log = record { status = s; session = none; diagnostic = d; log = log }

abbrev down_from_library : List Event
down_from_library = destroyed library ∷ []

abbrev down_from_manager : List Event
down_from_manager = destroyed manager ∷ destroyed library ∷ []

abbrev down_from_control : List Event
down_from_control = destroyed control ∷ destroyed manager ∷ destroyed library ∷ []

abbrev provider_fault : Fault → Diagnostic → Status × Diagnostic
provider_fault =
    caught provider_exception (codes "provider exception") (codes "unknown provider exception")

abbrev symbol_fault : Fault → Diagnostic → Status × Diagnostic
symbol_fault =
    caught symbol_not_found (codes "symbol resolution failed")
      (codes "unknown symbol-resolution exception")

abbrev name_of : Option (List ℕ) → List ℕ
name_of none = []
name_of (some name) = name

-- From `control->init` to the publication of the session.
pub open_initialized : IrProvider → OpenArguments → ℕ → Diagnostic → List Event → Opened
open_initialized p a maximum d log = elim p.init [
  | threw f ↦ refused (provider_fault f d) (log ++ down_from_control)
  | returned false ↦
      refused (initialization_failed, write_diagnostic (codes "Control::init failed") d)
        (log ++ down_from_control)
  | returned true ↦ elim p.allocation [
    | threw f ↦ refused (provider_fault f d) (log ++ down_from_control)
    | returned _ ↦ record {
      status = ok;
      session = some (record {
        admission = if maximum == 0 then none else some maximum;
        instance_name = name_of a.instance_name;
      });
      diagnostic = d;
      log = log;
    }
  ]
]

pub open_control : IrProvider → OpenArguments → ℕ → Diagnostic → List Event → Opened
unfolding open_initialized
open_control p a maximum d log = elim p.make_control [
  | threw f ↦ refused (provider_fault f d) (log ++ down_from_manager)
  | returned false ↦
      refused (factory_failed, write_diagnostic (codes "getControl returned null") d)
        (log ++ down_from_manager)
  | returned true ↦ open_initialized p a maximum d (log ++ built control ∷ [])
]

pub open_manager : IrProvider → OpenArguments → ℕ → Diagnostic → List Event → Opened
unfolding open_control
open_manager p a maximum d log = elim p.make_manager [
  | threw f ↦ refused (provider_fault f d) (log ++ down_from_library)
  | returned false ↦
      refused (factory_failed, write_diagnostic (codes "getAPI_Manager returned null") d)
        (log ++ down_from_library)
  | returned true ↦ open_control p a maximum d (log ++ built manager ∷ [])
]

-- The two `symbol` calls, in one `try` block.
pub open_symbols : IrProvider → OpenArguments → ℕ → Diagnostic → List Event → Opened
unfolding open_manager
open_symbols p a maximum d log = elim (symbol p.loader (codes "getAPI_Manager")) [
  | threw f ↦ refused (symbol_fault f d) (log ++ down_from_library)
  | returned _ ↦ elim (symbol p.loader (codes "getControl")) [
    | threw f ↦ refused (symbol_fault f d) (log ++ down_from_library)
    | returned _ ↦ open_manager p a maximum d log
  ]
]

unfoldable pub open_session_impl : IrProvider → OpenArguments → ℕ → Diagnostic → Opened
unfolding open_symbols
open_session_impl p a maximum d0 =
    let d = clear_diagnostic d0 in
    if invalid_open a d0
    then refused (invalid_argument, write_diagnostic (codes "invalid argument") d) []
    else elim (shared_library p.loader) [
      | threw f ↦
          refused
            (caught library_load_failed (codes "library load failed")
              (codes "unknown library-load exception") f d)
            []
      | returned _ ↦ open_symbols p a maximum d (built library ∷ [])
    ]

pub session_open : IrProvider → OpenArguments → Diagnostic → Opened
unfolding open_session_impl
session_open p a d = open_session_impl p a 0 d

-- `options` is `none` for a null pointer, else the value of `max_async_requests`.
pub session_open_with_options : IrProvider → OpenArguments → Option ℕ → Diagnostic → Opened
unfolding open_session_impl
session_open_with_options p a none d =
    refused (invalid_argument, write_diagnostic (codes "invalid argument") (clear_diagnostic d)) []
session_open_with_options p a (some max_async_requests) d =
    open_session_impl p a max_async_requests d

-- `session` is `none` for a null pointer. A null `out_version` is refused, so that the record is at
-- hand where it is written.
pub session_get_provider_version :
    IrProvider
    → Option SessionState
    → Option ProviderVersion
    → Diagnostic
    → Status × Option ProviderVersion × Diagnostic
session_get_provider_version p session none d0 =
    (invalid_argument, none, write_diagnostic (codes "invalid argument") (clear_diagnostic d0))
session_get_provider_version p session (some out) d0 =
    let d = clear_diagnostic d0 in
    if not (is_some session)
      || (bad_diagnostic d0 || not (valid_provider_version_output (some out)))
    then (invalid_argument, some out, write_diagnostic (codes "invalid argument") d)
    else elim p.version [
      | returned value ↦
          let (s, out', d') = publish_provider_version value out d in (s, some out', d')
      | threw f ↦
          let (s, d') =
            translate_provider_exception (codes "provider exception")
              (codes "unknown provider exception") f d in
          (s, some out, d')
    ]

-- The provider objects among the members of SessionState, in the order of their declaration.
abbrev pub session_members : List Object
session_members = library ∷ manager ∷ control ∷ []

-- The implicit destructor destroys the members in the reverse order.
unfoldable pub destroy_members : List Object → List Event
destroy_members [] = []
destroy_members (member ∷ rest) = destroy_members rest ++ destroyed member ∷ []

-- `session` is the caller's slot, `none` for a null pointer. `sharers` is the number of other owners
-- of the state (channels and their requests); the last owner destroys it. Destructors are `noexcept`,
-- so what one throws ends the process and does not reach the handlers around `delete`.
pub session_close :
    Option (Option SessionState)
    → ℕ
    → Diagnostic
    → Status × Option (Option SessionState) × Diagnostic × List Event
unfolding destroy_members
session_close none sharers d0 =
    (invalid_argument, none, write_diagnostic (codes "invalid argument") (clear_diagnostic d0), [])
session_close (some owned) sharers d0 =
    let d = clear_diagnostic d0 in
    if bad_diagnostic d0
    then (invalid_argument, some owned, write_diagnostic (codes "invalid argument") d, [])
    else (
      ok,
      some none,
      d,
      if is_some owned && (sharers == 0) then destroy_members session_members else [],
    )
