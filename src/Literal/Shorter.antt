-- ===== src/Literal/Shorter.antt =====
-- What the readers of the literal parser leave of a text (src/lib/task-search.ts).
use celery_insights.Common.{
  ℕ, zero, suc, ◌+◌, ◌≤◌, ◌<◌, ◌≡◌, refl, ap, Bool, true, false, ◌||◌, Option, some, none, [], ◌∷◌,
  if◌then◌else◌, length, ltb, arith, Bool-cases, Option-cases, inl, inr, nat_eq, list_eq, lt→ltb,
  ltb→lt,
}
use celery_insights.Common.Text.{to_lower}
use celery_insights.TaskSearch.{drop_spaces}
use celery_insights.Literal.{
  Units, Value, Parsed, parsed, rejected, too_deep, no_fuel, then_parse, or_rejected, quoted,
  unit_or_escape, continue_with, take_minus, digits, optional, exponent, number_of, word_of,
  word_value, read_string, read_number, read_word, scalar, separator, colon, tail, head_is,
  is_empty,
}

-- The parser did not run out of fuel, and what it leaves, when it reads something, has fewer units
-- than this.
abbrev pub is_shorter : {A : Type 0} → ℕ → Parsed A → Bool
is_shorter n (parsed a rest) = ltb (length rest) n
is_shorter n no_fuel = false
is_shorter n rejected = true
is_shorter n too_deep = true

module _ {A : Type 0} where
  pub is_shorter_mono :
      (m n : ℕ) (p : Parsed A) → m ≤ n → is_shorter m p ≡ true → is_shorter n p ≡ true
  is_shorter_mono m n (parsed a rest) le h = ground (arith, le, h)
  is_shorter_mono m n rejected le h = refl
  is_shorter_mono m n too_deep le h = refl
  is_shorter_mono m n no_fuel le h = h

  pub is_shorter-then_parse :
      {B : Type 0} (m n : ℕ) (p : Parsed B) (next : B → Units → Parsed A)
      → is_shorter m p ≡ true
      → ((b : B) (rest : Units) → length rest < m → is_shorter n (next b rest) ≡ true)
      → is_shorter n (then_parse p next) ≡ true
  is_shorter-then_parse m n (parsed b rest) next h k = k b rest (ltb→lt (length rest) m h)
  is_shorter-then_parse m n rejected next h k = refl
  is_shorter-then_parse m n too_deep next h k = refl
  is_shorter-then_parse m n no_fuel next h k = h

  pub is_shorter-or_rejected :
      (n : ℕ) (o : Option Units) (next : Units → Parsed A)
      → ((rest : Units) → o ≡ some rest → is_shorter n (next rest) ≡ true)
      → is_shorter n (or_rejected o next) ≡ true
  is_shorter-or_rejected n none next h = refl
  is_shorter-or_rejected n (some rest) next h = h rest refl

pub length-drop_spaces : (text : Units) → length (drop_spaces text) ≤ length text
unfolding drop_spaces
length-drop_spaces [] = omega arith
length-drop_spaces (c ∷ text) = ground (arith, length-drop_spaces text)

pub length-tail : (text : Units) → length (tail text) ≤ length text
length-tail [] = omega arith
length-tail (c ∷ text) = omega arith

length-continue_with :
    (n : ℕ) (next : ℕ → Option (Units × Units)) (turn : Option (Units × ℕ)) (decoded rest : Units)
    → ((width : ℕ) (d r : Units) → next width ≡ some (d, r) → length r < n)
    → continue_with next turn ≡ some (decoded, rest)
    → length rest < n
length-continue_with n next none decoded rest shorter h = cc
length-continue_with n next (some (units, width)) decoded rest shorter h =
    elim (Option-cases (next width)) [
      | inl ends ↦ absurd (ground (arith, h, ends))
      | inr ((d, r), goes) ↦ let fewer = shorter width d r goes in ground (arith, h, goes, fewer)
    ]

length-quoted :
    (quote skip : ℕ) (text decoded rest : Units)
    → quoted quote skip text ≡ some (decoded, rest)
    → length rest < length text
unfolding quoted
length-quoted quote skip [] decoded rest h = cc
length-quoted quote (suc skip) (c ∷ text) decoded rest h =
    let shorter = length-quoted quote skip text decoded rest h in omega (arith, shorter)
length-quoted quote zero (c ∷ text) decoded rest h = elim (Bool-cases (nat_eq c quote)) [
  | inl closes ↦ ground (arith, h, closes)
  | inr goes ↦
      let shorter =
        length-continue_with (length text) (λ width. quoted quote width text)
          (unit_or_escape c text) decoded rest (λ width d r k. length-quoted quote width text d r k)
          (ground (arith, h, goes)) in
      omega (arith, shorter)
]

length-digits : (text : Units) → length (digits text).0 + length (digits text).1 ≡ length text
unfolding digits
length-digits [] = omega arith
length-digits (c ∷ text) = ground (arith, length-digits text)

length-word_of : (text : Units) → length (word_of text).0 + length (word_of text).1 ≡ length text
unfolding word_of
length-word_of [] = omega arith
length-word_of (c ∷ text) = ground (arith, length-word_of text)

pub length-separator :
    (close : ℕ) (text rest : Units) → separator close text ≡ some rest → length rest ≤ length text
unfolding separator
length-separator close text rest h =
    let left = drop_spaces text in
    let fewer = length-drop_spaces text in
    let next = length-drop_spaces (tail left) in
    let tailed = length-tail left in ground (arith, fewer, next, tailed, h)

pub length-colon : (text rest : Units) → colon text ≡ some rest → length rest ≤ length text
length-colon text rest h =
    let left = drop_spaces text in
    let fewer = length-drop_spaces text in
    let tailed = length-tail left in ground (arith, fewer, tailed, h)

length-optional :
    (is_mark : ℕ → Bool) (text : Units) → length (optional is_mark text).1 ≤ length text
length-optional is_mark [] = omega arith
length-optional is_mark (c ∷ rest) = ground (arith, length-digits rest)

length-exponent : (text : Units) → length (exponent text).1 ≤ length text
length-exponent [] = omega arith
length-exponent (e ∷ []) = omega arith
length-exponent (e ∷ sign ∷ rest) =
    let plain = length-optional (λ c. nat_eq (to_lower c) b'e') (e ∷ sign ∷ rest) in
    ground (arith, length-digits rest, plain)

length-take_minus : (text : Units) → length (take_minus text).1 ≤ length text
length-take_minus [] = omega arith
length-take_minus (c ∷ rest) = ground arith

nonempty : (xs : Units) → is_empty xs ≡ false → 0 < length xs
nonempty [] h = absurd cc
nonempty (x ∷ xs) h = omega arith

length-number_of :
    (text n rest : Units) → number_of text ≡ some (n, rest) → length rest < length text
unfolding number_of
length-number_of text n rest h =
    let unsigned = (take_minus text).1 in
    let whole = digits unsigned in
    let fraction = optional (λ c. nat_eq c b'.') whole.1 in
    let a = length-take_minus text in
    let b = length-digits unsigned in
    let c = length-optional (λ c. nat_eq c b'.') whole.1 in
    let d = length-exponent fraction.1 in
    elim (Bool-cases (is_empty whole.0)) [
      | inl none_read ↦ absurd (ground (arith, h, none_read))
      | inr some_read ↦
          let eq : (exponent fraction.1).1 ≡ rest = ground (arith, h, some_read) in
          let filled = nonempty whole.0 some_read in omega (arith, a, b, c, d, filled, ap length eq)
    ]

word_value-filled : (word : Units) (value : Value) → word_value word ≡ some value → 0 < length word
unfolding word_value list_eq
word_value-filled [] value h = absurd cc
word_value-filled (c ∷ word) value h = omega arith

is_shorter-read_string :
    (n : ℕ) (o : Option (Units × Units))
    → ((d r : Units) → o ≡ some (d, r) → length r < n)
    → is_shorter n (read_string o) ≡ true
is_shorter-read_string n none h = refl
is_shorter-read_string n (some (d, r)) h = lt→ltb (length r) n (h d r refl)

is_shorter-read_number :
    (n : ℕ) (o : Option (Units × Units)) (otherwise : Parsed Value)
    → ((d r : Units) → o ≡ some (d, r) → length r < n)
    → is_shorter n otherwise ≡ true
    → is_shorter n (read_number o otherwise) ≡ true
is_shorter-read_number n none otherwise h k = k
is_shorter-read_number n (some (d, r)) otherwise h k = lt→ltb (length r) n (h d r refl)

is_shorter-read_word :
    (n : ℕ) (o : Option Value) (rest : Units)
    → ((v : Value) → o ≡ some v → length rest < n)
    → is_shorter n (read_word o rest) ≡ true
is_shorter-read_word n none rest h = refl
is_shorter-read_word n (some v) rest h = lt→ltb (length rest) n (h v refl)

is_shorter-if :
    (n : ℕ) (b : Bool) (p q : Parsed Value)
    → (b ≡ true → is_shorter n p ≡ true)
    → is_shorter n q ≡ true
    → is_shorter n (if b then p else q) ≡ true
is_shorter-if n true p q h k = h refl
is_shorter-if n false p q h k = k

pub scalar-is_shorter : (text : Units) → is_shorter (length text) (scalar text) ≡ true
unfolding scalar
scalar-is_shorter text =
    let quote : ℕ = if head_is b'"' text then b'"' else b'\'' in
    let word = word_of text in
    is_shorter-if (length text) (head_is b'"' text || head_is b'\'' text)
      (read_string (quoted quote 0 (tail text)))
      (read_number (number_of text) (read_word (word_value word.0) word.1))
      (λ opens. is_shorter-read_string (length text) (quoted quote 0 (tail text)) (λ d r k.
        let shorter = length-quoted quote 0 (tail text) d r k in
        let tailed = length-tail text in omega (arith, shorter, tailed)))
      (is_shorter-read_number (length text) (number_of text) (read_word (word_value word.0) word.1)
        (λ d r k. length-number_of text d r k)
        (is_shorter-read_word (length text) (word_value word.0) word.1 (λ v k.
          let filled = word_value-filled word.0 v k in
          let whole = length-word_of text in omega (arith, filled, whole))))
