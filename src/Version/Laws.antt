-- ===== src/Version/Laws.antt =====
-- `publish_provider_version` of native/src/provider.cpp follows its two-call protocol.
use ams_gra_mel_bridge.Prelude.{
  ℕ, ◌+◌, ◌≤◌, ◌≡◌, refl, ap, ◌∙◌, true, Option, some, List, ◌∷◌, length, length-append,
  length-drop, drop, arith, All,
}
use mathlib.Core.Option
use ams_gra_mel_bridge.Utf8.{valid_utf8}
use ams_gra_mel_bridge.Utf8.Correct.{IsByte, valid_utf8-pos}
use ams_gra_mel_bridge.Diagnostic.{Diagnostic, c_string}
use ams_gra_mel_bridge.Diagnostic.Published.{c_string-append}
use ams_gra_mel_bridge.Provider.{ok}
use ams_gra_mel_bridge.Version.{VersionInfo, ProviderVersion, copy_string, publish_provider_version}

publish-required :
    (value : VersionInfo) (out : ProviderVersion) (d : Diagnostic)
    → valid_utf8 value.vendor true ≡ true
    → valid_utf8 value.description true ≡ true
    → ((publish_provider_version value out d).1.vendor_required ≡ length value.vendor + 1)
      × ((publish_provider_version value out d).1.description_required
          ≡ length value.description + 1)
unfolding publish_provider_version
publish-required value out d v w = ground arith

-- The string that a buffer holds after a copy, and that the copy stays inside the storage.
copy_string-reads :
    (text old : List ℕ)
    → All IsByte text
    → valid_utf8 text true ≡ true
    → c_string (copy_string text old) ≡ text
copy_string-reads text old bs v =
    c_string-append text (drop (length text + 1) old) (valid_utf8-pos text bs v)

length-copy_string :
    (text old : List ℕ) → length text + 1 ≤ length old → length (copy_string text old) ≡ length old
length-copy_string text old h =
    omega (
      arith,
      length-append text (0 ∷ drop (length text + 1) old),
      length-drop (length text + 1) old,
    )

-- A caller's buffer that holds a string.
abbrev pub Holds : Option (List ℕ) → ℕ → List ℕ → Type 0
Holds storage capacity text =
    (new : List ℕ) × (storage ≡ some new) × (c_string new ≡ text) × (length new ≡ capacity)

copy_string-Holds :
    (text : List ℕ) (storage : Option (List ℕ)) (old : List ℕ) (capacity : ℕ)
    → All IsByte text
    → valid_utf8 text true ≡ true
    → storage ≡ some old
    → length old ≡ capacity
    → length text + 1 ≤ capacity
    → Holds (Option.map (copy_string text) storage) capacity text
copy_string-Holds text storage old capacity bs v e sized fits = (
  copy_string text old,
  ap (Option.map (copy_string text)) e,
  copy_string-reads text old bs v,
  length-copy_string text old (omega arith) ∙ sized,
)

publish-ok :
    (value : VersionInfo) (out : ProviderVersion) (d : Diagnostic) (old_v old_d : List ℕ)
    → valid_utf8 value.vendor true ≡ true
    → valid_utf8 value.description true ≡ true
    → out.vendor ≡ some old_v
    → out.description ≡ some old_d
    → length value.vendor + 1 ≤ out.vendor_capacity
    → length value.description + 1 ≤ out.description_capacity
    → publish_provider_version value out d ≡ (
      ok,
      record out {
        vendor_required = length value.vendor + 1;
        description_required = length value.description + 1;
        api_version = value.api_version;
        library_version = value.lib_version;
        vendor = Option.map (copy_string value.vendor) out.vendor;
        description = Option.map (copy_string value.description) out.description;
      },
      d,
    )
unfolding publish_provider_version
publish-ok value out d old_v old_d v w ev ed fv fd = ground arith

-- The two-call protocol: when the provider's strings are valid UTF-8 without NUL, a first call with
-- any record reports sizes such that a second call, with buffers of at least those sizes, returns
-- `ok`, writes both numbers, and leaves both strings whole in the buffers, which keep their length.
pub publish_provider_version_twice :
    (value : VersionInfo) (first second : ProviderVersion) (d d' : Diagnostic)
    (old_v old_d : List ℕ)
    → All IsByte value.vendor
    → All IsByte value.description
    → valid_utf8 value.vendor true ≡ true
    → valid_utf8 value.description true ≡ true
    → second.vendor ≡ some old_v
    → second.description ≡ some old_d
    → length old_v ≡ second.vendor_capacity
    → length old_d ≡ second.description_capacity
    → (publish_provider_version value first d).1.vendor_required ≤ second.vendor_capacity
    → (publish_provider_version value first d).1.description_required ≤ second.description_capacity
    → (out : ProviderVersion) × (publish_provider_version value second d' ≡ (ok, out, d'))
      × (out.api_version ≡ value.api_version)
      × (out.library_version ≡ value.lib_version)
      × Holds out.vendor second.vendor_capacity value.vendor
      × Holds out.description second.description_capacity value.description
publish_provider_version_twice value first second d d' old_v old_d bv bd v w ev ed sv sd rv rd =
    let (qv, qd) = publish-required value first d v w in
    let fits_v : length value.vendor + 1 ≤ second.vendor_capacity = omega arith in
    let fits_d : length value.description + 1 ≤ second.description_capacity = omega arith in
    (
      _,
      publish-ok value second d' old_v old_d v w ev ed fits_v fits_d,
      refl,
      refl,
      copy_string-Holds value.vendor second.vendor old_v second.vendor_capacity bv v ev sv fits_v,
      copy_string-Holds value.description second.description old_d second.description_capacity bd w
          ed sd fits_d,
    )
