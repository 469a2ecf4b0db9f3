-- ===== src/Utf8/Step.antt =====
-- One pass of the loop of `valid_utf8` over a lead byte above 0x7f, against the encoding.
use ams_gra_mel_bridge.Prelude.{
  ℕ, ◌+◌, ◌*◌, ◌/◌, ◌%◌, ◌≤◌, ◌<◌, ◌≡◌, refl, some, List, [], ◌∷◌, ◌++◌, arith, All, drop,
}
use native.Mathlib.Decide.{dec_lt}
use ams_gra_mel_bridge.Utf8.{multibyte, Scalar, encode}

-- The code point that an accepted sequence encodes.
abbrev pub Found : ℕ → List ℕ → ℕ → Type 0
Found lead rest t = (c : ℕ) × Scalar c × (0x7f < c) × (lead ∷ rest ≡ encode c ++ drop t rest)

two :
    (lead a : ℕ) (r : List ℕ) {t : ℕ}
    → 0xc2 ≤ lead
    → lead ≤ 0xdf
    → a < 256
    → multibyte lead (a ∷ r) ≡ some t
    → Found lead (a ∷ r) t
unfolding multibyte
two lead a r h h' ha e = (lead % 32 * 64 + a % 64, ground arith, ground arith, ground arith)

three :
    (lead a b : ℕ) (r : List ℕ) {t : ℕ}
    → 0xe0 ≤ lead
    → lead ≤ 0xef
    → a < 256
    → b < 256
    → multibyte lead (a ∷ b ∷ r) ≡ some t
    → Found lead (a ∷ b ∷ r) t
unfolding multibyte
three lead a b r h h' ha hb e =
    ((lead % 16 * 64 + a % 64) * 64 + b % 64, ground arith, ground arith, ground arith)

four :
    (lead a b c : ℕ) (r : List ℕ) {t : ℕ}
    → 0xf0 ≤ lead
    → lead ≤ 0xf4
    → a < 256
    → b < 256
    → c < 256
    → multibyte lead (a ∷ b ∷ c ∷ r) ≡ some t
    → Found lead (a ∷ b ∷ c ∷ r) t
unfolding multibyte
four lead a b c r h h' ha hb hc e = (
  ((lead % 8 * 64 + a % 64) * 64 + b % 64) * 64 + c % 64,
  ground arith,
  ground arith,
  ground arith,
)

-- What one pass accepts is the encoding of one scalar value above 0x7f.
pub multibyte-Found :
    (lead : ℕ) (rest : List ℕ) {t : ℕ}
    → 0x7f < lead
    → All (λ b. b < 256) rest
    → multibyte lead rest ≡ some t
    → Found lead rest t
unfolding multibyte
multibyte-Found lead [] h bs e = absurd (ground arith)
multibyte-Found lead (a ∷ []) h bs e =
    two lead a [] (ground arith) (ground arith) bs.0 (ground arith)
multibyte-Found lead (a ∷ b ∷ []) h bs e = elim (dec_lt lead 0xe0) [
  | yes p ↦ two lead a (b ∷ []) (ground arith) (ground arith) bs.0 (ground arith)
  | no p ↦ three lead a b [] (ground arith) (ground arith) bs.0 bs.1.0 (ground arith)
]
multibyte-Found lead (a ∷ b ∷ c ∷ r) h bs e = elim (dec_lt lead 0xe0) [
  | yes p ↦ two lead a (b ∷ c ∷ r) (ground arith) (ground arith) bs.0 (ground arith)
  | no p ↦ elim (dec_lt lead 0xf0) [
    | yes q ↦ three lead a b (c ∷ r) (ground arith) (ground arith) bs.0 bs.1.0 (ground arith)
    | no q ↦ four lead a b c r (ground arith) (ground arith) bs.0 bs.1.0 bs.1.1.0 (ground arith)
  ]
]

-- The encoding of a scalar value above 0x7f is accepted whole.
pub multibyte-encode :
    (c : ℕ) (r : List ℕ)
    → Scalar c
    → 0x7f < c
    → (lead : ℕ) × (rest : List ℕ) × (t : ℕ) × (encode c ++ r ≡ lead ∷ rest)
      × (0x7f < lead)
      × (multibyte lead rest ≡ some t)
      × (drop t rest ≡ r)
unfolding multibyte
multibyte-encode c r s h = elim (dec_lt c 0x800) [
  | yes p ↦ (192 + c / 64, (128 + c % 64) ∷ r, 1, ground arith, omega arith, ground arith, refl)
  | no p ↦ elim (dec_lt c 0x10000) [
    | yes q ↦ (
      224 + c / 4096,
      (128 + c / 64 % 64) ∷ (128 + c % 64) ∷ r,
      2,
      ground arith,
      omega arith,
      ground arith,
      refl,
    )
    | no q ↦ (
      240 + c / 262144,
      (128 + c / 4096 % 64) ∷ (128 + c / 64 % 64) ∷ (128 + c % 64) ∷ r,
      3,
      ground arith,
      omega arith,
      ground arith,
      refl,
    )
  ]
]
