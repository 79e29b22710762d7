-- ===== src/Common/Text.antt =====
-- Texts: equality, the order by code points, membership.
use Prim.Native.Char.{code}
use Prim.Native.Nat.{ℕ}
use Prim.Native.String.{String}
use mathlib.Core.Bool.{Bool, true, false, ◌||◌}
use mathlib.Core.List.{List, [], ◌∷◌}
use text.Mathlib.Text.{◌==◌ as text_eq}
use traceline.Common.Tests.{ltb, ◌==◌, if◌then◌else◌}

abbrev pub str_eq : String → String → Bool
str_eq a b = text_eq a b

-- a < b, by code points
unfoldable pub str_lt : String → String → Bool
str_lt s String.[] = false
str_lt String.[] (String.◌∷◌ d t) = true
str_lt (String.◌∷◌ c s) (String.◌∷◌ d t) =
    let rest = str_lt s t in if code c == code d then rest else ltb (code c) (code d)

-- name in names
abbrev pub elem_str : String → List String → Bool
elem_str s [] = false
elem_str s (t ∷ ts) = str_eq t s || elem_str s ts

abbrev pub starts_with_code : ℕ → String → Bool
starts_with_code k String.[] = false
starts_with_code k (String.◌∷◌ c s) = code c == k
