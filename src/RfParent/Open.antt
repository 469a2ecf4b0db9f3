-- ===== src/RfParent/Open.antt =====
-- The Open of an RF factory, which native/src/rf_data.cpp, native/src/rf_c2.cpp and
-- native/src/rf_admin.cpp write alike but for the owner's type and the names in the texts.
use ams_gra_mel_bridge.Prelude.{
  ℕ, Bool, true, false, ◌||◌, not, Option, none, some, List, if◌then◌else◌, is_some, codes, ◌≡◌,
  ◌≢◌, ◌↔◌, arith,
}
use ams_gra_mel_bridge.Diagnostic.{Diagnostic, write_diagnostic, clear_diagnostic, bad_diagnostic}
use ams_gra_mel_bridge.Provider.{
  Status, ok, invalid_argument, library_load_failed, symbol_not_found, factory_failed,
  internal_error, Call, returned, threw, caught, translate_provider_exception,
}
use ams_gra_mel_bridge.Loader.{Loader, shared_library, symbol}

-- The loader, whether the facade's own objects can be allocated, and the factory: it may throw, and
-- it returns whether the object is not null.
pub record RfProvider : Type 0 where
  pub loader : Loader
  pub allocates : Bool
  pub factory : Call Bool

-- The pointer arguments, `none` for null, and what the caller's slot holds.
pub record OpenArguments (A : Type 0) : Type 0 where
  pub library_path : Option (List ℕ)
  pub configuration : Option (List ℕ)
  pub out_owner : Option (Option A)

abbrev slot_taken : {A : Type 0} → Option (Option A) → Bool
slot_taken none = true
slot_taken (some none) = false
slot_taken (some (some p)) = true

abbrev pub invalid_open : {A : Type 0} → OpenArguments A → Diagnostic → Bool
invalid_open a d =
    not (is_some a.library_path)
    || (not (is_some a.configuration) || (slot_taken a.out_owner || bad_diagnostic d))

abbrev refused : {A : Type 0} → Status × Diagnostic → Status × Option A × Diagnostic
refused (s, d) = (s, none, d)

-- From the factory call on. `fresh` is the owner of an object just made.
unfoldable pub open_factory :
    {A : Type 0} → A → RfProvider → List ℕ → Diagnostic → Status × Option A × Diagnostic
open_factory fresh p null_message d = elim p.factory [
  | threw f ↦ refused (
      translate_provider_exception (codes "provider factory exception")
        (codes "unknown provider factory exception") f d)
  | returned false ↦ refused (factory_failed, write_diagnostic null_message d)
  | returned true ↦ (ok, some fresh, d)
]

unfoldable pub open_family :
    {A : Type 0}
    → A
    → List ℕ
    → List ℕ
    → RfProvider
    → OpenArguments A
    → Diagnostic
    → Status × Option A × Diagnostic
unfolding open_factory
open_family fresh factory_name null_message p a d0 =
    let d = clear_diagnostic d0 in
    if invalid_open a d0
    then refused (invalid_argument, write_diagnostic (codes "invalid argument") d)
    else elim (shared_library p.loader) [
      | threw f ↦ refused (
          caught library_load_failed (codes "library load failed")
            (codes "unknown library-load exception") f d)
      | returned _ ↦ elim (symbol p.loader factory_name) [
        | threw f ↦ refused (
            caught symbol_not_found (codes "symbol resolution failed")
              (codes "unknown symbol-resolution exception") f d)
        | returned _ ↦
            if p.allocates
            then open_factory fresh p null_message d
            else refused (internal_error, write_diagnostic (codes "allocation failed") d)
      ]
    ]

-- Open publishes an owner exactly when it returns `ok`, and that is exactly when the arguments are
-- valid, the library loads and has the symbol, the facade's objects are allocated and the factory
-- returns an object; the owner is then the fresh one.
pub open_family-ok_iff :
    {A : Type 0} (fresh : A) (factory_name null_message : List ℕ) (p : RfProvider)
    (a : OpenArguments A) (d : Diagnostic)
    → let r = open_family fresh factory_name null_message p a d in
      ((r.0 ≡ ok) ↔ (
        (invalid_open a d ≡ false)
        × (shared_library p.loader ≡ returned tt)
        × (symbol p.loader factory_name ≡ returned tt)
        × (p.allocates ≡ true)
        × (p.factory ≡ returned true)))
      × ((r.0 ≡ ok) ↔ (r.1 ≡ some fresh))
      × ((r.0 ≢ ok) ↔ (r.1 ≡ none))
unfolding open_family translate_provider_exception
open_family-ok_iff fresh factory_name null_message p a d = (
  (λ e. ground arith, λ e. ground arith),
  (λ e. ground arith, λ e. ground arith),
  (λ e. ground arith, λ e. ground arith),
)
