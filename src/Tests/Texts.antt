-- ===== src/Tests/Texts.antt =====
-- The texts of native/src/provider.cpp on small inputs.
use ams_gra_mel_bridge.Prelude.{
  ℕ, ◌+◌, ◌≡◌, ◌↔◌, refl, true, false, some, List, [], ◌∷◌, arith, All, length,
}
use ams_gra_mel_bridge.Utf8.{trailing_bits, multibyte, scan, valid_utf8}
use ams_gra_mel_bridge.Utf8.Correct.{Encoded, IsByte, valid_utf8-iff-Encoded}
use ams_gra_mel_bridge.Diagnostic.{Diagnostic, back_off, fill, write_diagnostic}
use ams_gra_mel_bridge.Diagnostic.Published.{Published, write_diagnostic-Published}
use ams_gra_mel_bridge.Version.{VersionInfo}

-- "hé"
abbrev accented : List ℕ
accented = 0x68 ∷ 0xc3 ∷ 0xa9 ∷ []

accented-IsByte : All IsByte accented
accented-IsByte = (omega arith, (omega arith, (omega arith, tt)))

accented_valid : valid_utf8 accented true ≡ true
unfolding valid_utf8 scan multibyte trailing_bits
accented_valid = refl

-- A surrogate, an overlong form and a cut-off sequence are refused.
refused_forms :
    (valid_utf8 (0xed ∷ 0xa0 ∷ 0x80 ∷ []) false ≡ false)
    × (valid_utf8 (0xe0 ∷ 0x80 ∷ 0x80 ∷ []) false ≡ false)
    × (valid_utf8 (0xc3 ∷ []) false ≡ false)
unfolding valid_utf8 scan multibyte trailing_bits
refused_forms = (refl, refl, refl)

valid_utf8-iff-Encoded_example : (valid_utf8 accented true ≡ true) ↔ Encoded true accented
valid_utf8-iff-Encoded_example = valid_utf8-iff-Encoded accented true accented-IsByte

-- Room for two bytes and the NUL: the two-byte letter does not fit.
abbrev narrow : Diagnostic
narrow = record { buffer = some (0xff ∷ 0xff ∷ 0xff ∷ []); capacity = 3; required = some 0 }

narrow_text : (write_diagnostic accented narrow).buffer ≡ some (0x68 ∷ 0 ∷ 0xff ∷ [])
unfolding write_diagnostic fill back_off valid_utf8 scan multibyte trailing_bits
narrow_text = refl

write_diagnostic-Published_example :
    (new : List ℕ) × ((write_diagnostic accented narrow).buffer ≡ some new)
    × Published accented 3 new
    × ((write_diagnostic accented narrow).required ≡ some (length accented + 1))
write_diagnostic-Published_example =
    write_diagnostic-Published accented narrow (0xff ∷ 0xff ∷ 0xff ∷ []) 0 accented-IsByte
      accented_valid refl (omega arith) refl

abbrev version : VersionInfo
version = record { api_version = 7; lib_version = 3; vendor = accented; description = [] }
