-- ===== src/Common/Text.antt =====
-- Go's string operations on the native texts. `len` counts bytes, as Go's `len` does.
use Prim.Native.String.{String, ◌++◌}
use mathlib.Core.Bool.{Bool}
use mathlib.Core.List.{List, [], ◌∷◌}
use text.Mathlib.Text.{find?}
use site_operator.Common.Tests.{if◌then◌else◌, is_some}

infixr 66 ◌<>◌
-- Go's `+` on strings
abbrev pub ◌<>◌ : String → String → String
s <> t = s ++ t

-- `strings.Contains`
unfoldable pub contains : String → String → Bool
contains s t = is_some (find? s t)

-- `strconv.FormatBool`
unfoldable pub format_bool : Bool → String
format_bool b = if b then "true" else "false"

-- Lines with a line feed between each two: a raw string literal of the source, line by line.
unfoldable pub join_lines : List String → String
join_lines [] = ""
join_lines (l ∷ []) = l
join_lines (l ∷ m ∷ ls) = l <> ("\n" <> join_lines (m ∷ ls))
