-- ===== src/Secret/Base64.antt =====
-- `base64.StdEncoding.EncodeToString`, as the bytes of its text.
use site_operator.Common.{
  ℕ, ◌+◌, ◌-◌, ◌*◌, ◌/◌, ◌%◌, ◌≡◌, refl, [], ◌∷◌, length, ltb, nat_eq, arith, if◌then◌else◌,
}
use site_operator.Kube.Objects.{Bytes}

-- The ASCII code of a six-bit digit.
digit : ℕ → ℕ
digit n =
    if ltb n 26
    then 65 + n
    else if ltb n 52
    then 71 + n
    else if ltb n 62
    then n - 4
    else if nat_eq n 62
    then 43
    else 47

abbrev padding : ℕ
padding = 61

unfoldable pub encode : Bytes → Bytes
unfolding digit
encode [] = []
encode (a ∷ []) = digit (a / 4) ∷ digit (a % 4 * 16) ∷ padding ∷ padding ∷ []
encode (a ∷ b ∷ []) =
    digit (a / 4) ∷ digit (a % 4 * 16 + b / 16) ∷ digit (b % 16 * 4) ∷ padding ∷ []
encode (a ∷ b ∷ c ∷ rest) =
    digit (a / 4)
    ∷ digit (a % 4 * 16 + b / 16)
    ∷ digit (b % 16 * 4 + c / 64)
    ∷ digit (c % 64)
    ∷ encode rest

-- Four characters for each three bytes begun.
pub length-encode : (bs : Bytes) → length (encode bs) ≡ 4 * ((length bs + 2) / 3)
unfolding encode
length-encode [] = refl
length-encode (a ∷ []) = refl
length-encode (a ∷ b ∷ []) = refl
length-encode (a ∷ b ∷ c ∷ rest) = omega (arith, length-encode rest)

test_vector :
    encode (102 ∷ 111 ∷ 111 ∷ 98 ∷ 97 ∷ []) ≡ 90 ∷ 109 ∷ 57 ∷ 118 ∷ 89 ∷ 109 ∷ 69 ∷ 61 ∷ []
unfolding encode
test_vector = refl
