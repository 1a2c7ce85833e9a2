-- ===== src/Common/Text.antt =====
-- Text as code points, for the code that walks it. Header values and URL paths are ASCII.
use Prim.Native.Nat.{ℕ, suc, ◌+◌}
use Prim.Native.Char.{code}
use Prim.Native.String
use Prim.Native.String.{String, len, slice}
use mathlib.Core.Bool.{Bool, true, false, ◌&&◌}
use mathlib.Core.Option
use mathlib.Core.Option.{Option, none, some}
use mathlib.Core.List.{List, [], ◌∷◌, map}
use celery_insights.Common.Numbers.{leb, nat_eq, is_some, if◌then◌else◌}
use text.Mathlib.Text.{find?}
use celery_insights.Common.Equality.{Eq-ℕ, Eq-List, ◌==◌}

abbrev pub codes : String → List ℕ
codes String.[] = []
codes (String.◌∷◌ c s) = code c ∷ codes s

abbrev pub is_upper : ℕ → Bool
is_upper c = leb b'A' c && leb c b'Z'

abbrev pub to_lower : ℕ → ℕ
to_lower c = if is_upper c then c + 32 else c

abbrev pub is_lower : ℕ → Bool
is_lower c = leb b'a' c && leb c b'z'

abbrev pub is_digit : ℕ → Bool
is_digit c = leb b'0' c && leb c b'9'

-- `text.toLowerCase()`, as code points.
unfoldable pub lower_case : List ℕ → List ℕ
lower_case = map to_lower

-- `text.startsWith(prefix)`, with what is left.
unfoldable pub strip : List ℕ → List ℕ → Option (List ℕ)
strip [] text = some text
strip (p ∷ prefix) [] = none
strip (p ∷ prefix) (c ∷ text) = elim (p == c) [ true ↦ strip prefix text | false ↦ none ]

-- `text.slice(prefix.length)` on a text that starts with the prefix.
unfoldable pub drop_prefix : String → String → String
drop_prefix prefix text = slice text (len prefix) (len text)

-- `text.indexOf(c)`, with `none` for -1.
unfoldable pub index_of : ℕ → List ℕ → Option ℕ
index_of c [] = none
index_of c (x ∷ xs) = let rest = Option.map suc (index_of c xs) in if x == c then some 0 else rest

-- `text.includes(part)`.
abbrev pub contains : String → String → Bool
contains text part = is_some (find? text part)

-- Concatenation of texts, and `parts.join(separator)`.
infixr 65 ◌<>◌
abbrev pub ◌<>◌ : String → String → String
s <> t = String.◌++◌ s t

unfoldable pub join : String → List String → String
join separator [] = ""
join separator (part ∷ []) = part
join separator (part ∷ next ∷ parts) = part <> separator <> join separator (next ∷ parts)

abbrev pub add_first : ℕ → List (List ℕ) → List (List ℕ)
add_first c [] = (c ∷ []) ∷ []
add_first c (piece ∷ pieces) = (c ∷ piece) ∷ pieces

-- `split(separator)` at a character.
unfoldable pub split : ℕ → List ℕ → List (List ℕ)
split separator [] = [] ∷ []
split separator (c ∷ cs) =
    let rest = split separator cs in if nat_eq c separator then [] ∷ rest else add_first c rest
