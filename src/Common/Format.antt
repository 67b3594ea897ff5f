-- ===== src/Common/Format.antt =====
-- `%d` and `%v` of `fmt`, for natural numbers and lists of texts.
use Prim.Native.Nat.{ℕ, zero, suc, ◌/◌, ◌%◌}
use Prim.Native.String.{String}
use mathlib.Core.List.{List, [], ◌∷◌}
use site_operator.Common.Tests.{ltb, if◌then◌else◌}
use site_operator.Common.Text.{◌<>◌}

-- One decimal digit.
digit_text : ℕ → String
digit_text zero = "0"
digit_text (suc zero) = "1"
digit_text (suc (suc zero)) = "2"
digit_text (suc (suc (suc zero))) = "3"
digit_text (suc (suc (suc (suc zero)))) = "4"
digit_text (suc (suc (suc (suc (suc zero))))) = "5"
digit_text (suc (suc (suc (suc (suc (suc zero)))))) = "6"
digit_text (suc (suc (suc (suc (suc (suc (suc zero))))))) = "7"
digit_text (suc (suc (suc (suc (suc (suc (suc (suc zero)))))))) = "8"
digit_text _ = "9"

-- The digits of a number, with more fuel than it has digits.
decimal : ℕ → ℕ → String
decimal zero n = ""
decimal (suc fuel) n =
    let rest = decimal fuel (n / 10) in
    if ltb n 10 then digit_text n else rest <> digit_text (n % 10)

unfoldable pub format_nat : ℕ → String
unfolding decimal digit_text
format_nat n = decimal (suc n) n

spaced : List String → String
spaced [] = ""
spaced (s ∷ []) = s
spaced (s ∷ t ∷ ss) = s <> (" " <> spaced (t ∷ ss))

unfoldable pub format_list : List String → String
unfolding spaced
format_list ss = "[" <> (spaced ss <> "]")
