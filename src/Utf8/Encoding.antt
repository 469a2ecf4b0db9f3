-- ===== src/Utf8/Encoding.antt =====
-- An independent description of UTF-8: the bytes of a Unicode scalar value.
use ams_gra_mel_bridge.Prelude.{ℕ, ◌+◌, ◌/◌, ◌%◌, ◌<◌, ◌⊎◌, List, [], ◌∷◌, ◌++◌, ltb, if◌then◌else◌}

-- A code point that is no surrogate.
abbrev pub Scalar : ℕ → Type 0
Scalar c = (c < 0x110000) × ((c < 0xd800) ⊎ (0xdfff < c))

abbrev pub encode : ℕ → List ℕ
encode c =
    if ltb c 0x80
    then c ∷ []
    else if ltb c 0x800
    then (192 + c / 64) ∷ (128 + c % 64) ∷ []
    else if ltb c 0x10000
    then (224 + c / 4096) ∷ (128 + c / 64 % 64) ∷ (128 + c % 64) ∷ []
    else (240 + c / 262144) ∷ (128 + c / 4096 % 64) ∷ (128 + c / 64 % 64) ∷ (128 + c % 64) ∷ []

unfoldable pub encode_all : List ℕ → List ℕ
encode_all [] = []
encode_all (c ∷ cs) = encode c ++ encode_all cs
