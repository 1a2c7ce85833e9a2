-- ===== src/Literal.antt =====
-- The literals of a search: `parseQuoted`, `parseContainer`, `parseLiteral` and `kwargsSearchTerms` of
-- src/lib/task-search.ts. Texts are their UTF-16 units, and an index is the text from there on. The
-- patterns that the parser also builds are left out.
mod Strings
mod Scalars
mod Shorter
pub mod Fuel
pub mod Whole
mod Tests
unfoldable pub use Strings.*
unfoldable pub use Scalars.*
use celery_insights.Common.{
  ℕ, zero, suc, ◌+◌, ◌-◌, ◌*◌, ◌/◌, ◌%◌, Bool, true, false, not, ◌&&◌, ◌||◌, Option, some, none,
  List, [], ◌∷◌, ◌++◌, String, map, take, drop, all, if◌then◌else◌, includes, length, leb, ltb,
  nat_eq, lookup, ◌==◌, Eq-ℕ, Eq-String, Eq-List, distinct,
}
use celery_insights.Common.Text.{codes, is_digit, is_lower, is_upper, to_lower}
use celery_insights.TaskSearch.{is_space, drop_spaces}

mutual
  pub data Value : Type 0 where
    string : Units → Value
    number : Units → Value
    boolean : Bool → Value
    null : Value
    list : Values → Value
    object : Entries → Value

  pub data Values : Type 0 where
    nil : Values
    cons : Value → Values → Values

  pub data Entries : Type 0 where
    end : Entries
    entry : Value → Value → Entries → Entries

-- What is read, and what is left of the text; undefined; the error of the nesting limit; or a run
-- out of fuel.
pub data Parsed (A : Type 0) : Type 0 where
  parsed : A → Units → Parsed A
  rejected too_deep no_fuel : Parsed A

abbrev pub then_parse : {A B : Type 0} → Parsed A → (A → Units → Parsed B) → Parsed B
then_parse (parsed a rest) next = next a rest
then_parse rejected next = rejected
then_parse too_deep next = too_deep
then_parse no_fuel next = no_fuel

-- `MAX_NESTING_DEPTH`.
abbrev pub max_nesting_depth : ℕ
max_nesting_depth = 64

-- `WORD_PATTERNS`, by the value.
unfoldable pub word_value : Units → Option Value
word_value word =
    let lower = map to_lower word in
    if lower == codes "true"
    then some (boolean true)
    else if lower == codes "false"
    then some (boolean false)
    else if lower == codes "none" || lower == codes "null"
    then some null
    else none

abbrev pub head_is : ℕ → Units → Bool
head_is c [] = false
head_is c (x ∷ xs) = nat_eq x c

abbrev pub tail : Units → Units
tail [] = []
tail (x ∷ xs) = xs

abbrev pub read_string : Option (Units × Units) → Parsed Value
read_string none = rejected
read_string (some (decoded, rest)) = parsed (string decoded) rest

abbrev pub read_number : Option (Units × Units) → Parsed Value → Parsed Value
read_number none otherwise = otherwise
read_number (some (digits_read, rest)) otherwise = parsed (number digits_read) rest

abbrev pub read_word : Option Value → Units → Parsed Value
read_word none rest = rejected
read_word (some value) rest = parsed value rest

-- A literal that is no container.
unfoldable pub scalar : Units → Parsed Value
scalar text =
    let quote = if head_is b'"' text then b'"' else b'\'' in
    let (word, after_word) = word_of text in
    if head_is b'"' text || head_is b'\'' text
    then read_string (quoted quote 0 (tail text))
    else read_number (number_of text) (read_word (word_value word) after_word)

-- What separates an item from the next one, or from the end.
unfoldable pub separator : ℕ → Units → Option Units
separator close text =
    let left = drop_spaces text in
    if head_is b',' left
    then some (drop_spaces (tail left))
    else if head_is close left
    then some left
    else none

abbrev pub or_rejected : {A : Type 0} → Option Units → (Units → Parsed A) → Parsed A
or_rejected none next = rejected
or_rejected (some rest) next = next rest

abbrev pub colon : Units → Option Units
colon text = let left = drop_spaces text in if head_is b':' left then some (tail left) else none

pub data Opening : Type 0 where
  bracket brace no_bracket : Opening

-- Whether a container begins.
abbrev pub opening : Units → Opening
opening text =
    if head_is b'[' text then bracket else if head_is b'{' text then brace else no_bracket

-- `parseLiteral` and `parseContainer`, on fuel.
unfoldable mutual
  pub parse_literal : ℕ → ℕ → Units → Parsed Value
  parse_literal zero depth text = no_fuel
  parse_literal (suc fuel) depth text =
      let left = drop_spaces text in
      elim (opening left) [
        | bracket ↦
            if ltb max_nesting_depth (suc depth)
            then too_deep
            else then_parse (parse_items fuel (suc depth) (drop_spaces (tail left)))
                (λ values rest. parsed (list values) rest)
        | brace ↦
            if ltb max_nesting_depth (suc depth)
            then too_deep
            else then_parse (parse_entries fuel (suc depth) (drop_spaces (tail left)))
                (λ values rest. parsed (object values) rest)
        | no_bracket ↦ scalar left
      ]

  pub parse_items : ℕ → ℕ → Units → Parsed Values
  parse_items zero depth text = no_fuel
  parse_items (suc fuel) depth text =
      let more = then_parse (parse_literal fuel depth text) (λ value rest.
        or_rejected (separator b']' rest) (λ next.
          then_parse (parse_items fuel depth next)
            (λ values left. parsed (cons value values) left))) in
      if head_is b']' text then parsed nil (tail text) else more

  pub parse_entries : ℕ → ℕ → Units → Parsed Entries
  parse_entries zero depth text = no_fuel
  parse_entries (suc fuel) depth text =
      let more = then_parse (parse_literal fuel depth text) (λ key after_key.
        or_rejected (colon after_key) (λ start.
          then_parse (parse_literal fuel depth start) (λ value rest.
            or_rejected (separator b'}' rest) (λ next.
              then_parse (parse_entries fuel depth next)
                (λ values left. parsed (entry key value values) left))))) in
      if head_is b'}' text then parsed end (tail text) else more

-- Enough for every text.
abbrev pub enough : Units → ℕ
enough text = 2 * length text + 1

unfoldable pub parse : Units → Parsed Value
parse text = parse_literal (enough text) 0 text

-- The terms of a value: one for each entry of an object that has a string for its key, the entries
-- of what the object and the lists hold included. `term` is the JSON of a key and a value.
unfoldable mutual
  pub terms_of : (Units → Value → Units) → Value → List Units
  terms_of term (list values) = terms_of_values term values
  terms_of term (object entries) = terms_of_entries term entries
  terms_of term _ = []

  pub terms_of_values : (Units → Value → Units) → Values → List Units
  terms_of_values term nil = []
  terms_of_values term (cons value values) = terms_of term value ++ terms_of_values term values

  pub terms_of_entries : (Units → Value → Units) → Entries → List Units
  terms_of_entries term end = []
  terms_of_entries term (entry (string key) child entries) =
      term key child ∷ terms_of term child ++ terms_of_entries term entries
  terms_of_entries term (entry key child entries) =
      terms_of term child ++ terms_of_entries term entries

-- The terms under which a record is found, or that it must be found by its text.
pub record Terms : Type 0 where
  pub terms : List Units
  pub fallback : Bool

abbrev pub found_by_text : Terms
found_by_text = record { terms = []; fallback = true }

abbrev pub sources : List String
sources = "saferepr" ∷ "repr" ∷ "json" ∷ []

abbrev pub is_known : Option String → Bool
is_known none = false
is_known (some source) = includes sources source

abbrev pub limited : List Units → Terms
limited terms =
    if ltb 256 (length terms) then found_by_text else record { terms = terms; fallback = false }

abbrev pub object_terms : (Units → Value → Units) → Parsed Value → Terms
object_terms term (parsed (object entries) rest) =
    if is_empty (drop_spaces rest)
    then limited (distinct (terms_of_entries term entries))
    else found_by_text
object_terms term _ = found_by_text

-- `kwargsSearchTerms`.
unfoldable pub kwargs_search_terms : (Units → Value → Units) → Option Units → Option String → Terms
kwargs_search_terms term none source = record { terms = []; fallback = false }
kwargs_search_terms term (some raw) source =
    if is_empty raw
    then record { terms = []; fallback = false }
    else if not (is_known source) || (ltb 4096 (length raw) || includes raw b'\\')
    then found_by_text
    else object_terms term (parse raw)
