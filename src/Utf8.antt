-- ===== src/Utf8.antt =====
-- native/src/provider.cpp, `valid_utf8`: the strict UTF-8 test over a byte string. The same
-- function stands again in common_channel_requests.cpp, ir_stream.cpp and ir_health.cpp.
mod Encoding
pub mod Step
pub mod Correct
pub use Encoding.{Scalar, encode}
unfoldable pub use Encoding.{encode_all}
use ams_gra_mel_bridge.Prelude.{
  ℕ, zero, suc, ◌+◌, ◌*◌, ◌/◌, ◌%◌, Bool, true, false, ◌&&◌, ◌||◌, Option, none, some, List, [],
  ◌∷◌, ltb, leb, ◌==◌, if◌then◌else◌, length, drop,
}

-- The `else if` chain over a lead byte above 0x7f: `trailing` and the first bits of `code_point`.
abbrev pub lead_bits : ℕ → Option (ℕ × ℕ)
lead_bits lead =
    if leb 0xc2 lead && leb lead 0xdf
    then some (1, lead % 32)
    else if leb 0xe0 lead && leb lead 0xef
    then some (2, lead % 16)
    else if leb 0xf0 lead && leb lead 0xf4
    then some (3, lead % 8)
    else none

-- The `for` loop over `trailing` bytes. `byte & 0xc0` is 0x80 when `byte / 64` is 2, and
-- `code_point << 6 | byte & 0x3f` is a sum.
unfoldable pub trailing_bits : ℕ → ℕ → List ℕ → Option ℕ
trailing_bits zero code_point bytes = some code_point
trailing_bits (suc trailing) code_point [] = none
trailing_bits (suc trailing) code_point (byte ∷ bytes) =
    if byte / 64 == 2 then trailing_bits trailing (code_point * 64 + byte % 64) bytes else none

-- The tests on a finished code point: overlong forms, the range, surrogates.
abbrev pub rejected_point : ℕ → ℕ → Bool
rejected_point trailing code_point =
    ((trailing == 2) && ltb code_point 0x800)
    || (((trailing == 3) && ltb code_point 0x10000)
        || (ltb 0x10ffff code_point || (leb 0xd800 code_point && leb code_point 0xdfff)))

-- What one pass over a lead byte above 0x7f finds: the bytes to skip after it, or a fault.
-- `rest` is the text behind the lead byte, so `index + trailing >= size` is `length rest < trailing`.
unfoldable pub multibyte : ℕ → List ℕ → Option ℕ
unfolding trailing_bits
multibyte lead rest = elim (lead_bits lead) [
  | none ↦ none
  | some (trailing, first) ↦
      if ltb (length rest) trailing then none else elim (trailing_bits trailing first rest) [
        | none ↦ none
        | some code_point ↦ if rejected_point trailing code_point then none else some trailing
      ]
]

-- The `while` loop, on fuel: each pass drops at least the lead byte.
unfoldable pub scan : ℕ → Bool → List ℕ → Bool
scan fuel reject_nul [] = true
scan zero reject_nul (lead ∷ rest) = false
scan (suc fuel) reject_nul (lead ∷ rest) =
    let next = scan fuel reject_nul rest in
    if (lead == 0) && reject_nul
    then false
    else if leb lead 0x7f
    then next
    else elim (multibyte lead rest) [
      | none ↦ false
      | some trailing ↦ scan fuel reject_nul (drop trailing rest)
    ]

unfoldable pub valid_utf8 : List ℕ → Bool → Bool
valid_utf8 value reject_nul = scan (length value) reject_nul value
