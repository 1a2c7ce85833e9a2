-- ===== src/Literal/Strings.antt =====
-- Strings with escapes: `parseQuoted` of src/lib/task-search.ts.
use celery_insights.Common.{
  ℕ, zero, suc, ◌+◌, ◌-◌, ◌*◌, ◌/◌, ◌%◌, Bool, ◌&&◌, ◌||◌, Option, some, none, List, [], ◌∷◌, ◌++◌,
  drop, if◌then◌else◌, leb, ltb, nat_eq, lookup, Eq-ℕ, Eq-List,
}
use celery_insights.Common.Text.{is_digit, to_lower}

abbrev pub Units : Type 0
Units = List ℕ

-- The value of a hexadecimal digit.
unfoldable pub hex_digit : ℕ → Option ℕ
hex_digit c =
    if is_digit c
    then some (c - b'0')
    else if leb b'a' (to_lower c) && leb (to_lower c) b'f'
    then some (to_lower c - b'a' + 10)
    else none

-- `parseInt` of this many digits, when they all are.
unfoldable pub hex_value : ℕ → ℕ → Units → Option ℕ
hex_value zero value text = some value
hex_value (suc width) value [] = none
hex_value (suc width) value (c ∷ text) = elim (hex_digit c) [
  | none ↦ none
  | some d ↦ hex_value width (16 * value + d) text
]

-- `HEX_ESCAPE_WIDTHS`.
unfoldable pub hex_width : ℕ → Option ℕ
hex_width c =
    if nat_eq c b'x'
    then some 2
    else if nat_eq c b'u'
    then some 4
    else if nat_eq c b'U'
    then some 8
    else none

-- `String.fromCodePoint`.
unfoldable pub from_code_point : ℕ → Units
from_code_point code =
    if ltb code 65536
    then code ∷ []
    else (55296 + (code - 65536) / 1024) ∷ (56320 + (code - 65536) % 1024) ∷ []

-- `/^\\u([Dd][C-Fc-f][0-9A-Fa-f]{2})/`.
unfoldable pub low_surrogate : Units → Option ℕ
low_surrogate (b ∷ u ∷ text) =
    if nat_eq b b'\\' && nat_eq u b'u'
    then elim (hex_value 4 0 text) [
      | none ↦ none
      | some low ↦ if leb 56320 low && leb low 57343 then some low else none
    ]
    else none
low_surrogate _ = none

abbrev pub is_high : ℕ → Bool
is_high code = leb 55296 code && leb code 56319

abbrev pub is_low : ℕ → Bool
is_low code = leb 56320 code && leb code 57343

-- The units of a code, unless it is none, with the length of the escape.
abbrev pub checked : ℕ → ℕ → Option (Units × ℕ)
checked code width =
    if ltb 1114111 code || is_low code then none else some (from_code_point code, width)

abbrev pub hex_escape : Option ℕ → ℕ → Units → Option (Units × ℕ)
hex_escape none width rest = none
hex_escape (some code) width rest =
    if is_high code
    then elim (low_surrogate rest) [
      | none ↦ none
      | some low ↦ checked (65536 + (code - 55296) * 1024 + (low - 56320)) (suc width + 6)
    ]
    else checked code (suc width)

abbrev pub is_octal : ℕ → Bool
is_octal c = leb b'0' c && leb c b'7'

-- `/^[0-7]{1,3}/`, by its value and its length.
unfoldable pub octal : ℕ → ℕ → Units → ℕ × ℕ
octal zero value text = (value, 0)
octal (suc most) value [] = (value, 0)
octal (suc most) value (c ∷ text) =
    let (last, n) = octal most (8 * value + (c - b'0')) text in
    if is_octal c then (last, suc n) else (value, 0)

-- `STRING_ESCAPES`.
unfoldable pub string_escapes : List (ℕ × ℕ)
string_escapes =
    (b'\\', b'\\')
    ∷ (b'\'', b'\'')
    ∷ (b'"', b'"')
    ∷ (b'/', b'/')
    ∷ (b'a', 7)
    ∷ (b'b', 8)
    ∷ (b'f', 12)
    ∷ (b'n', 10)
    ∷ (b'r', 13)
    ∷ (b't', 9)
    ∷ (b'v', 11)
    ∷ []

abbrev pub plain_escape : ℕ → Units
plain_escape c = elim (lookup c string_escapes) [ none ↦ b'\\' ∷ c ∷ [] | some unit ↦ unit ∷ [] ]

-- What follows a backslash: the units that it stands for, and how many it takes.
unfoldable pub escape : Units → Option (Units × ℕ)
escape [] = none
escape (c ∷ rest) = elim (hex_width c) [
  | some width ↦ hex_escape (hex_value width 0 rest) width (drop width rest)
  | none ↦
      let (value, n) = octal 3 0 (c ∷ rest) in
      if is_octal c then some (value ∷ [], n) else some (plain_escape c, 1)
]

abbrev pub unit_or_escape : ℕ → Units → Option (Units × ℕ)
unit_or_escape c rest = if nat_eq c b'\\' then escape rest else some (c ∷ [], 0)

abbrev pub prepend : Units → Option (Units × Units) → Option (Units × Units)
prepend units none = none
prepend units (some (decoded, rest)) = some (units ++ decoded, rest)

abbrev pub continue_with :
    (ℕ → Option (Units × Units)) → Option (Units × ℕ) → Option (Units × Units)
continue_with next none = none
continue_with next (some (units, width)) = prepend units (next width)

-- `parseQuoted`: units of an escape are passed over.
unfoldable pub quoted : ℕ → ℕ → Units → Option (Units × Units)
quoted quote skip [] = none
quoted quote (suc skip) (c ∷ rest) = quoted quote skip rest
quoted quote zero (c ∷ rest) =
    if nat_eq c quote
    then some ([], rest)
    else continue_with (λ width. quoted quote width rest) (unit_or_escape c rest)
