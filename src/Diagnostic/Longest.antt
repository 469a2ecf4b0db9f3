-- ===== src/Diagnostic/Longest.antt =====
-- The prefix of a message that `write_diagnostic` of native/src/provider.cpp keeps.
use ams_gra_mel_bridge.Prelude.{
  ℕ, zero, suc, ◌+◌, ◌-◌, ◌≤◌, ◌<◌, ◌≡◌, refl, ap, ◌∙◌, inl, inr, Bool, true, false, List, [], ◌∷◌,
  ◌++◌, arith, All, All-take, length, length-append, take, Bool-cases,
}
use native.Mathlib.Decide.{dec_lt}
use ams_gra_mel_bridge.Utf8.{valid_utf8, encode, encode_all}
use ams_gra_mel_bridge.Utf8.Correct.{
  valid_utf8-iff-Encoded, Allowed, Encoded, IsByte, valid_utf8-nil,
}
use ams_gra_mel_bridge.Diagnostic.{back_off}

module _ (reject_nul : Bool) (message : List ℕ) where
  pub back_off-le : (n : ℕ) → back_off reject_nul message n ≤ n
  unfolding back_off
  back_off-le zero = omega arith
  back_off-le (suc n) = ground (arith, back_off-le n)

  pub back_off-valid :
      (n : ℕ) → valid_utf8 (take (back_off reject_nul message n) message) reject_nul ≡ true
  unfolding back_off
  back_off-valid zero = valid_utf8-nil reject_nul
  back_off-valid (suc n) = elim (Bool-cases (valid_utf8 (take (suc n) message) reject_nul)) [
    | inl e ↦ rw (e, back_off) e
    | inr e ↦ rw (e, back_off) (back_off-valid n)
  ]

  pub back_off-longest :
      (n j : ℕ)
      → back_off reject_nul message n < j
      → j ≤ n
      → valid_utf8 (take j message) reject_nul ≡ false
  unfolding back_off
  back_off-longest zero j h h' = absurd (omega arith)
  back_off-longest (suc n) j h h' =
      elim (Bool-cases (valid_utf8 (take (suc n) message) reject_nul)) [
        | inl e ↦ absurd (ground arith)
        | inr e ↦ elim (dec_lt j (suc n)) [
          | yes p ↦ back_off-longest n j (ground arith) (omega arith)
          | no p ↦ let same : j ≡ suc n = omega arith in rw same e
        ]
      ]

-- Every place in an encoded text has a boundary between code points at most three bytes before it.
abbrev Boundary : Bool → List ℕ → ℕ → Type 0
Boundary reject_nul bytes n = (j : ℕ) × (j ≤ n) × (n ≤ j + 3) × Encoded reject_nul (take j bytes)

take_append {ℓ} :
    {A : Type ℓ} (xs ys : List A) (j : ℕ) → take (length xs + j) (xs ++ ys) ≡ xs ++ take j ys
take_append [] ys j = let e : 0 + j ≡ j = omega arith in rw e
take_append (x ∷ xs) ys j =
    let e : suc (length xs) + j ≡ suc (length xs + j) = omega arith in
    rw e (ap (◌∷◌ x) (take_append xs ys j))

length-encode : (c : ℕ) → (0 < length (encode c)) × (length (encode c) ≤ 4)
length-encode c = ground arith

encode_all-Boundary :
    (reject_nul : Bool) (cs : List ℕ) (n : ℕ)
    → All (Allowed reject_nul) cs
    → n ≤ length (encode_all cs)
    → Boundary reject_nul (encode_all cs) n
unfolding encode_all
encode_all-Boundary reject_nul [] n ok h = (0, omega arith, omega arith, ([], tt, refl))
encode_all-Boundary reject_nul (c ∷ cs) n ok h = elim (dec_lt n (length (encode c))) [
  | yes p ↦ (0, omega arith, omega (arith, length-encode c), ([], tt, refl))
  | no p ↦
      let (j, le, near, (ds, allowed, e)) =
        encode_all-Boundary reject_nul cs (n - length (encode c)) ok.1
          (omega (arith, length-append (encode c) (encode_all cs))) in
      (
        length (encode c) + j,
        omega arith,
        omega arith,
        (
          c ∷ ds,
          (ok.0, allowed),
          take_append (encode c) (encode_all cs) j ∙ ap (◌++◌ (encode c)) e,
        ),
      )
]

-- From a text that is valid, backing off drops three bytes at most.
pub back_off-near :
    (reject_nul : Bool) (message : List ℕ) (n : ℕ)
    → All IsByte message
    → valid_utf8 message reject_nul ≡ true
    → n ≤ length message
    → n ≤ back_off reject_nul message n + 3
back_off-near reject_nul message n bs v h =
    let (cs, ok, e) = (valid_utf8-iff-Encoded message reject_nul bs).0 v in
    let (j, le, near, enc) = encode_all-Boundary reject_nul cs n ok (rw (← e) h) in
    elim (dec_lt (back_off reject_nul message n) j) [
      | yes p ↦
          let bad = back_off-longest reject_nul message n j p le in
          let enc' : Encoded reject_nul (take j message) = rw e enc in
          let good =
            (valid_utf8-iff-Encoded (take j message) reject_nul (All-take IsByte j message bs)).1
              enc' in
          cc
      | no p ↦ omega arith
    ]
