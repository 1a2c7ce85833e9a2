-- ===== src/Configuration/Values.antt =====
-- Values of a configuration document, and the texts of files: `flatten` and `validateCeleryData` of
-- runtime/config-loader.ts.
use celery_insights.Common.{
  Option, ℕ, suc, Bool, ◌&&◌, ◌||◌, List, [], ◌∷◌, ◌++◌, String, if◌then◌else◌, ltb, length,
  includes, lookup, ◌==◌, Eq-String, nat_eq, Result, ok, err, other_error, throw_if, ◌>>◌,
}
use mathlib.Core.List.{reverse}
use celery_insights.Common.Text.{◌<>◌}
use Prim.Native.Char.{code}

-- `typeof` a value.
pub data Kind : Type 0 where
  of_text of_number of_boolean of_object : Kind

-- A number is finite, or it is not; `null` is written by the loader alone.
mutual
  pub data Value : Type 0 where
    text : String → Value
    number : ℕ → Value
    not_finite : Value
    boolean : Bool → Value
    date : Value
    null : Value
    array : Values → Value
    table : Table → Value

  pub data Values : Type 0 where
    nil : Values
    cons : Value → Values → Values

  pub data Table : Type 0 where
    end : Table
    entry : String → Value → Table → Table

abbrev pub items : Values → List Value
items nil = []
items (cons v vs) = v ∷ items vs

abbrev pub entries : Table → List (String × Value)
entries end = []
entries (entry k v t) = (k, v) ∷ entries t

abbrev pub prefixed : String → String → String
prefixed prefix key = if prefix == "" then key else prefix <> "." <> key

-- `flatten`: each value that is not a table, under its dotted key. Arrays and dates are values.
unfoldable mutual
  pub flatten : String → Table → List (String × Value)
  flatten prefix end = []
  flatten prefix (entry key value rest) =
      flatten_value (prefixed prefix key) value ++ flatten prefix rest

  pub flatten_value : String → Value → List (String × Value)
  flatten_value full (table t) = flatten full t
  flatten_value full value = (full, value) ∷ []

-- `flat[key]`: of a key that stands twice, the later value counts.
unfoldable pub flat_of : Table → String → Option Value
flat_of document key = lookup key (reverse (flatten "" document))

abbrev pub forbidden_names : List String
forbidden_names = "__proto__" ∷ "prototype" ∷ "constructor" ∷ []

-- `depth > 16`.
abbrev check_depth : ℕ → Result (Unit {0})
check_depth depth = throw_if (ltb 16 depth) other_error

-- `validateCeleryData`. The keys of an array are its indices.
unfoldable mutual
  pub validate_celery_data : ℕ → Value → Result (Unit {0})
  validate_celery_data depth date = err other_error
  validate_celery_data depth null = err other_error
  validate_celery_data depth not_finite = err other_error
  validate_celery_data depth (array vs) =
      check_depth depth
      >> throw_if (ltb 1000 (length (items vs))) other_error
      >> validate_items depth vs
  validate_celery_data depth (table t) =
      check_depth depth
      >> throw_if (ltb 1000 (length (entries t))) other_error
      >> validate_entries depth t
  validate_celery_data depth (text s) = check_depth depth
  validate_celery_data depth (number n) = check_depth depth
  validate_celery_data depth (boolean b) = check_depth depth

  pub validate_items : ℕ → Values → Result (Unit {0})
  validate_items depth nil = ok tt
  validate_items depth (cons v vs) = validate_celery_data (suc depth) v >> validate_items depth vs

  pub validate_entries : ℕ → Table → Result (Unit {0})
  validate_entries depth end = ok tt
  validate_entries depth (entry key v t) =
      throw_if (includes forbidden_names key) other_error
      >> validate_celery_data (suc depth) v
      >> validate_entries depth t

-- `text.replace(/\r?\n$/, "")`.
unfoldable pub drop_newline : String → String
drop_newline String.[] = ""
drop_newline (String.◌∷◌ c s) =
    let rest = drop_newline s in
    if (nat_eq (code c) 10 && s == "") || (nat_eq (code c) 13 && s == "\n")
    then ""
    else String.◌∷◌ c rest
