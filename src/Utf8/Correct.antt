-- ===== src/Utf8/Correct.antt =====
-- `valid_utf8` of native/src/provider.cpp accepts exactly the encodings of scalar values.
use native.Mathlib.Decide.{dec_lt}
use ams_gra_mel_bridge.Prelude.{
  ℕ, zero, suc, ◌≤◌, ◌<◌, ◌≡◌, refl, sym, ap, ◌∙◌, ◌↔◌, ◌≢◌, ◌⊎◌, inl, inr, Bool, true, false, none,
  some, List, [], ◌∷◌, ◌++◌, arith, All, All-drop, Option-cases, length, length-drop, drop,
  All-append, All-split, subst,
}
use ams_gra_mel_bridge.Utf8.{scan, valid_utf8, multibyte, Scalar, encode, encode_all}
use ams_gra_mel_bridge.Utf8.Step.{multibyte-Found, multibyte-encode}

-- A code point that may stand in a text: a scalar value, and no NUL where NUL is refused.
abbrev pub Allowed : Bool → ℕ → Type 0
Allowed reject_nul c = Scalar c × ((reject_nul ≡ false) ⊎ (0 < c))

abbrev pub IsByte : ℕ → Type 0
IsByte b = b < 256

-- The bytes are the encoding of allowed code points.
abbrev pub Encoded : Bool → List ℕ → Type 0
Encoded reject_nul bytes = (cs : List ℕ) × All (Allowed reject_nul) cs × (bytes ≡ encode_all cs)

no_fuel : (reject_nul : Bool) (lead : ℕ) (rest : List ℕ) → scan zero reject_nul (lead ∷ rest) ≢ true
unfolding scan
no_fuel reject_nul lead rest e = cc

scan-nil : (fuel : ℕ) (reject_nul : Bool) → scan fuel reject_nul [] ≡ true
unfolding scan
scan-nil fuel reject_nul = refl

encode_pos : (c : ℕ) (r : List ℕ) → 0 < length (encode c ++ r)
encode_pos c r = ground arith

scan-multibyte :
    (fuel : ℕ) (reject_nul : Bool) (lead : ℕ) (rest : List ℕ) (t : ℕ)
    → 0x7f < lead
    → multibyte lead rest ≡ some t
    → scan (suc fuel) reject_nul (lead ∷ rest) ≡ scan fuel reject_nul (drop t rest)
unfolding scan
scan-multibyte fuel reject_nul lead rest t h e = ground arith

scan_fault :
    (fuel : ℕ) (reject_nul : Bool) (lead : ℕ) (rest : List ℕ)
    → 0x7f < lead
    → multibyte lead rest ≡ none
    → scan (suc fuel) reject_nul (lead ∷ rest) ≡ false
unfolding scan
scan_fault fuel reject_nul lead rest h e = ground arith

scan_nul :
    (fuel : ℕ) (reject_nul : Bool) (lead : ℕ) (rest : List ℕ)
    → scan (suc fuel) reject_nul (lead ∷ rest) ≡ true
    → (reject_nul ≡ false) ⊎ (0 < lead)
unfolding scan
scan_nul fuel false lead rest e = inl refl
scan_nul fuel true lead rest e = inr (ground arith)

scan_ascii :
    (fuel : ℕ) (reject_nul : Bool) (lead : ℕ) (rest : List ℕ)
    → lead ≤ 0x7f
    → (reject_nul ≡ false) ⊎ (0 < lead)
    → scan (suc fuel) reject_nul (lead ∷ rest) ≡ scan fuel reject_nul rest
unfolding scan
scan_ascii fuel reject_nul lead rest h (inl e) = ground arith
scan_ascii fuel reject_nul lead rest h (inr e) = ground arith

scan-Encoded :
    (fuel : ℕ) (reject_nul : Bool) (bytes : List ℕ)
    → All IsByte bytes
    → scan fuel reject_nul bytes ≡ true
    → Encoded reject_nul bytes
unfolding encode_all
scan-Encoded fuel reject_nul [] bs e = ([], tt, refl)
scan-Encoded zero reject_nul (lead ∷ rest) bs e = absurd (no_fuel reject_nul lead rest e)
scan-Encoded (suc fuel) reject_nul (lead ∷ rest) bs e = elim (dec_lt 0x7f lead) [
  | yes p ↦ elim (Option-cases (multibyte lead rest)) [
    | inl bad ↦ cc (scan_fault fuel reject_nul lead rest p bad)
    | inr (t, good) ↦
        let (c, s, pos, split) = multibyte-Found lead rest p bs.1 good in
        let onward = sym (scan-multibyte fuel reject_nul lead rest t p good) ∙ e in
        let (cs, ok, tail) =
          scan-Encoded fuel reject_nul (drop t rest) (All-drop IsByte t rest bs.1) onward in
        (c ∷ cs, ((s, inr (omega arith)), ok), split ∙ ap (◌++◌ (encode c)) tail)
  ]
  | no p ↦
      let pos = scan_nul fuel reject_nul lead rest e in
      let onward = sym (scan_ascii fuel reject_nul lead rest (omega arith) pos) ∙ e in
      let (cs, ok, tail) = scan-Encoded fuel reject_nul rest bs.1 onward in
      (lead ∷ cs, ((ground arith, pos), ok), ground arith)
]

scan-encode_all :
    (fuel : ℕ) (reject_nul : Bool) (cs : List ℕ)
    → All (Allowed reject_nul) cs
    → length (encode_all cs) ≤ fuel
    → scan fuel reject_nul (encode_all cs) ≡ true
unfolding encode_all
scan-encode_all fuel reject_nul [] ok h = scan-nil fuel reject_nul
scan-encode_all zero reject_nul (c ∷ cs) ok h = absurd (omega (arith, encode_pos c (encode_all cs)))
scan-encode_all (suc fuel) reject_nul (c ∷ cs) ok h = elim (dec_lt 0x7f c) [
  | yes p ↦
      let (lead, rest, t, split, pos, good, back) = multibyte-encode c (encode_all cs) ok.0.0 p in
      rw (split, scan-multibyte fuel reject_nul lead rest t pos good, back)
        (scan-encode_all fuel reject_nul cs ok.1
          (omega (arith, ap length split, ap length back, length-drop t rest)))
  | no p ↦
      let split : encode c ++ encode_all cs ≡ c ∷ encode_all cs = ground arith in
      rw (split, scan_ascii fuel reject_nul c (encode_all cs) (omega arith) ok.0.1)
        (scan-encode_all fuel reject_nul cs ok.1 (omega (arith, ap length split)))
]

-- `valid_utf8` holds of a byte string exactly when the string is the UTF-8 encoding of some Unicode
-- scalar values (no surrogate, no overlong form, nothing above 0x10ffff), none of them NUL where
-- `reject_nul` is set.
pub valid_utf8-iff-Encoded :
    (bytes : List ℕ) (reject_nul : Bool)
    → All IsByte bytes
    → (valid_utf8 bytes reject_nul ≡ true) ↔ Encoded reject_nul bytes
unfolding valid_utf8
valid_utf8-iff-Encoded bytes reject_nul bs = (
  λ e. scan-Encoded (length bytes) reject_nul bytes bs e,
  λ (cs, ok, e). rw e (scan-encode_all (length (encode_all cs)) reject_nul cs ok (omega arith)),
)

pub valid_utf8-nil : (reject_nul : Bool) → valid_utf8 [] reject_nul ≡ true
unfolding valid_utf8
valid_utf8-nil reject_nul = scan-nil 0 reject_nul

Allowed-pos : (c : ℕ) → Allowed true c → 0 < c
Allowed-pos c (s, inl e) = cc
Allowed-pos c (s, inr h) = h

Allowed-weaken :
    (reject_nul : Bool) (cs : List ℕ) → All (Allowed true) cs → All (Allowed reject_nul) cs
Allowed-weaken reject_nul [] ok = tt
Allowed-weaken reject_nul (c ∷ cs) ok =
    ((ok.0.0, inr (Allowed-pos c ok.0)), Allowed-weaken reject_nul cs ok.1)

encode-pos : (c : ℕ) → 0 < c → All (λ b. 0 < b) (encode c)
encode-pos c h = ground arith

encode-pos_back : (c : ℕ) → All (λ b. 0 < b) (encode c) → 0 < c
encode-pos_back c h = ground arith

encode_all-pos : (cs : List ℕ) → All (Allowed true) cs → All (λ b. 0 < b) (encode_all cs)
unfolding encode_all
encode_all-pos [] ok = tt
encode_all-pos (c ∷ cs) ok =
    All-append (λ b. 0 < b) (encode c) (encode_all cs) (encode-pos c (Allowed-pos c ok.0))
      (encode_all-pos cs ok.1)

-- A text that is valid with NUL refused holds no NUL.
pub valid_utf8-pos :
    (bytes : List ℕ) → All IsByte bytes → valid_utf8 bytes true ≡ true → All (λ b. 0 < b) bytes
valid_utf8-pos bytes bs v =
    let (cs, ok, e) = (valid_utf8-iff-Encoded bytes true bs).0 v in
    subst (All (λ b. 0 < b)) (sym e) (encode_all-pos cs ok)

pub valid_utf8-weaken :
    (bytes : List ℕ) (reject_nul : Bool)
    → All IsByte bytes
    → valid_utf8 bytes true ≡ true
    → valid_utf8 bytes reject_nul ≡ true
valid_utf8-weaken bytes reject_nul bs v =
    let (cs, ok, e) = (valid_utf8-iff-Encoded bytes true bs).0 v in
    (valid_utf8-iff-Encoded bytes reject_nul bs).1 (cs, Allowed-weaken reject_nul cs ok, e)

Allowed-strengthen :
    (reject_nul : Bool) (cs : List ℕ)
    → All (Allowed reject_nul) cs
    → All (λ b. 0 < b) (encode_all cs)
    → All (Allowed true) cs
unfolding encode_all
Allowed-strengthen reject_nul [] ok h = tt
Allowed-strengthen reject_nul (c ∷ cs) ok h =
    let (here, rest) = All-split (λ b. 0 < b) (encode c) (encode_all cs) h in
    ((ok.0.0, inr (encode-pos_back c here)), Allowed-strengthen reject_nul cs ok.1 rest)

-- A valid text with no NUL in it is valid with NUL refused.
pub valid_utf8-strengthen :
    (bytes : List ℕ) (reject_nul : Bool)
    → All IsByte bytes
    → All (λ b. 0 < b) bytes
    → valid_utf8 bytes reject_nul ≡ true
    → valid_utf8 bytes true ≡ true
valid_utf8-strengthen bytes reject_nul bs h v =
    let (cs, ok, e) = (valid_utf8-iff-Encoded bytes reject_nul bs).0 v in
    (valid_utf8-iff-Encoded bytes true bs).1
      (cs, Allowed-strengthen reject_nul cs ok (subst (All (λ b. 0 < b)) e h), e)
