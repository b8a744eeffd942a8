-- ===== src/Base/Text.antt =====
-- The parts of Go's `strings` that the program calls, over texts as lists of characters.
use Prim.Native.Nat.{ℕ, ◌+◌}
use Prim.Native.Char.{Char, code}
use Prim.Native.String.{String}
use mathlib.Core.Bool.{Bool, not, ◌&&◌, ◌||◌}
use mathlib.Core.List.{List, [], ◌∷◌}
use text.Mathlib.Text.{◌==◌ as str_eq}
use beer_avaliation_api.Base.Tests.{if◌then◌else◌, leb, ◌==◌}

-- How many bytes a character has in UTF-8.
unfoldable pub byte_width : ℕ → ℕ
byte_width c = if leb c 0x7f then 1 else if leb c 0x7ff then 2 else if leb c 0xffff then 3 else 4

-- `len` of a Go string: its bytes.
unfoldable pub byte_length : String → ℕ
unfolding byte_width
byte_length String.[] = 0
byte_length (String.◌∷◌ first others) = byte_width (code first) + byte_length others

-- `unicode.IsSpace`
unfoldable pub is_space : ℕ → Bool
is_space c =
    leb 9 c && leb c 13
    || c == 0x20
    || c == 0x85
    || c == 0xa0
    || c == 0x1680
    || leb 0x2000 c && leb c 0x200a
    || c == 0x2028
    || c == 0x2029
    || c == 0x202f
    || c == 0x205f
    || c == 0x3000

-- `strings.TrimLeftFunc(s, unicode.IsSpace)`
unfoldable pub trim_left : String → String
unfolding is_space
trim_left String.[] = String.[]
trim_left (String.◌∷◌ first others) =
    let shorter = trim_left others in
    if not (is_space (code first)) then String.◌∷◌ first others else shorter

-- `strings.TrimRightFunc(s, unicode.IsSpace)`: a character stays if it is no space or if one after
-- it stays.
unfoldable pub trim_right : String → String
unfolding is_space
trim_right String.[] = String.[]
trim_right (String.◌∷◌ first others) =
    let kept = trim_right others in
    if not (is_space (code first)) || not (str_eq kept "") then String.◌∷◌ first kept else String.[]

-- `strings.TrimSpace`
unfoldable pub trim_space : String → String
unfolding trim_left trim_right
trim_space s = trim_right (trim_left s)

abbrev cons_first : Char → List String → List String
cons_first c [] = String.◌∷◌ c String.[] ∷ []
cons_first c (part ∷ parts) = String.◌∷◌ c part ∷ parts

-- `strings.Split(s, ",")`: never empty.
unfoldable pub split_comma : String → List String
split_comma String.[] = String.[] ∷ []
split_comma (String.◌∷◌ c s) =
    let rest = split_comma s in if code c == b',' then String.[] ∷ rest else cons_first c rest
