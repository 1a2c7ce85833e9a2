-- ===== src/Literal/Scalars.antt =====
-- Numbers and words: the regular expressions of `parseLiteral` in src/lib/task-search.ts.
use celery_insights.Common.{
  ℕ, Bool, true, false, not, ◌&&◌, ◌||◌, Option, some, none, [], ◌∷◌, ◌++◌, if◌then◌else◌, nat_eq,
  Eq-ℕ, Eq-List,
}
use celery_insights.Common.Text.{is_digit, is_lower, is_upper, to_lower}
use celery_insights.Literal.Strings.{Units}

-- `[0-9]+`, and what is left.
unfoldable pub digits : Units → Units × Units
digits [] = ([], [])
digits (c ∷ rest) =
    let (more, left) = digits rest in if is_digit c then (c ∷ more, left) else ([], c ∷ rest)

abbrev pub is_empty : Units → Bool
is_empty [] = true
is_empty (c ∷ cs) = false

-- A mark and digits, when both are there.
abbrev pub optional : (ℕ → Bool) → Units → Units × Units
optional is_mark [] = ([], [])
optional is_mark (c ∷ rest) =
    let (some_digits, left) = digits rest in
    if is_mark c && not (is_empty some_digits) then (c ∷ some_digits, left) else ([], c ∷ rest)

abbrev pub is_sign : ℕ → Bool
is_sign c = nat_eq c b'+' || nat_eq c b'-'

-- `(?:[eE][+-]?[0-9]+)?`.
abbrev pub exponent : Units → Units × Units
exponent (e ∷ sign ∷ rest) =
    let (some_digits, left) = digits rest in
    if nat_eq (to_lower e) b'e' && (is_sign sign && not (is_empty some_digits))
    then (e ∷ sign ∷ some_digits, left)
    else optional (λ c. nat_eq (to_lower c) b'e') (e ∷ sign ∷ rest)
exponent text = ([], text)

abbrev pub take_minus : Units → Units × Units
take_minus [] = ([], [])
take_minus (c ∷ rest) = if nat_eq c b'-' then (c ∷ [], rest) else ([], c ∷ rest)

-- `/^-?[0-9]+(?:\.[0-9]+)?(?:[eE][+-]?[0-9]+)?/`.
unfoldable pub number_of : Units → Option (Units × Units)
number_of text =
    let (sign, unsigned) = take_minus text in
    let (whole, after_whole) = digits unsigned in
    let (fraction, after_fraction) = optional (λ c. nat_eq c b'.') after_whole in
    let (power, left) = exponent after_fraction in
    if is_empty whole then none else some (sign ++ whole ++ fraction ++ power, left)

-- `/^[A-Za-z]+/`.
unfoldable pub word_of : Units → Units × Units
word_of [] = ([], [])
word_of (c ∷ rest) =
    let (more, left) = word_of rest in
    if is_upper c || is_lower c then (c ∷ more, left) else ([], c ∷ rest)
