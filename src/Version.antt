-- ===== src/Version.antt =====
-- native/src/provider.cpp, `valid_provider_version_output` and `publish_provider_version`: how the
-- provider's version is copied into a record of the caller.
pub mod Laws
use ams_gra_mel_bridge.Prelude.{
  ℕ, suc, ◌+◌, Bool, true, false, ◌&&◌, ◌||◌, not, Option, none, some, List, [], ◌∷◌, ◌++◌, length,
  drop, ltb, ◌==◌, if◌then◌else◌, is_some, codes,
}
use mathlib.Core.Option
use ams_gra_mel_bridge.Utf8.{valid_utf8}
use ams_gra_mel_bridge.Diagnostic.{Diagnostic, write_diagnostic}
use ams_gra_mel_bridge.Provider.{Status, ok, provider_exception, buffer_too_small}

-- The provider's `mel::VersionInfo`.
pub record VersionInfo : Type 0 where
  pub api_version : ℕ
  pub lib_version : ℕ
  pub vendor : List ℕ
  pub description : List ℕ

-- `ams_mel_provider_version_v1`; a `none` is a null pointer.
pub record ProviderVersion : Type 0 where
  pub api_version : ℕ
  pub library_version : ℕ
  pub vendor : Option (List ℕ)
  pub vendor_capacity : ℕ
  pub vendor_required : ℕ
  pub description : Option (List ℕ)
  pub description_capacity : ℕ
  pub description_required : ℕ

pub valid_provider_version_output : Option ProviderVersion → Bool
valid_provider_version_output none = false
valid_provider_version_output (some out) =
    not (not (is_some out.vendor) && not (out.vendor_capacity == 0))
    && not (not (is_some out.description) && not (out.description_capacity == 0))

-- `std::memcpy(out, text.c_str(), text.size() + 1)` over the old storage.
abbrev pub copy_string : List ℕ → List ℕ → List ℕ
copy_string text old = text ++ (0 ∷ drop (length text + 1) old)

abbrev too_small : Option (List ℕ) → ℕ → ℕ → Bool
too_small storage capacity required = not (is_some storage) || ltb capacity required

-- The status, the caller's record after the call, and the diagnostic.
unfoldable pub publish_provider_version :
    VersionInfo → ProviderVersion → Diagnostic → Status × ProviderVersion × Diagnostic
publish_provider_version value out d =
    if not (valid_utf8 value.vendor true) || not (valid_utf8 value.description true)
    then (
      provider_exception,
      out,
      write_diagnostic (codes "provider version contains invalid UTF-8 or NUL") d,
    )
    else if too_small out.vendor out.vendor_capacity (length value.vendor + 1)
        || too_small out.description out.description_capacity (length value.description + 1)
    then (
      buffer_too_small,
      record out {
        vendor_required = length value.vendor + 1;
        description_required = length value.description + 1;
      },
      write_diagnostic (codes "provider version buffer too small") d,
    )
    else (
      ok,
      record out {
        vendor_required = length value.vendor + 1;
        description_required = length value.description + 1;
        api_version = value.api_version;
        library_version = value.lib_version;
        vendor = Option.map (copy_string value.vendor) out.vendor;
        description = Option.map (copy_string value.description) out.description;
      },
      d,
    )
