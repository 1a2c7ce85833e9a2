-- ===== src/Literal/Tests.antt =====
-- Literals of Python and of JSON.
use celery_insights.Common.{
  ◌≡◌, ◌≤◌, refl, true, false, [], some, length, includes, take, drop, lookup, list_eq, ◌⊎◌, Eq-ℕ,
}
use celery_insights.Common.Text.{codes}
use celery_insights.TaskSearch.{drop_spaces, is_space}
use celery_insights.Literal.{
  Units, Value, string, number, boolean, list, object, nil, cons, end, entry, parsed, parse,
  parse_literal, parse_items, parse_entries, scalar, separator, quoted, number_of, word_of,
  word_value, digits, escape, hex_width, hex_value, hex_digit, octal, from_code_point,
  string_escapes, found_by_text, kwargs_search_terms, is_known,
}
use celery_insights.Literal.Shorter.{is_shorter}
use celery_insights.Literal.Fuel.{parse-is_shorter}
use celery_insights.Literal.Whole.{IsWhole, kwargs_search_terms-IsWhole}

parse-is_shorter_example :
    is_shorter (length (codes "{'a': [1, Tr")) (parse (codes "{'a': [1, Tr")) ≡ true
parse-is_shorter_example = parse-is_shorter (codes "{'a': [1, Tr")

escaped : quoted b'"' 0 (codes "a\\u0041\\n\" ") ≡ some (codes "aA\n", codes " ")
unfolding quoted escape hex_width hex_value hex_digit octal from_code_point string_escapes lookup
    take drop
escaped = refl

float : number_of (codes "-1.5e+3,") ≡ some (codes "-1.5e+3", codes ",")
unfolding number_of digits
float = refl

nested :
    parse (codes "{'a': [1, True]}")
    ≡ parsed
        (object (
          entry
            (string (codes "a"))
            (list (cons (number (codes "1")) (cons (boolean true) nil)))
            end))
        []
unfolding parse parse_literal parse_items parse_entries scalar separator quoted number_of word_of
    word_value digits drop_spaces is_space list_eq
nested = refl

-- The key alone stands for a term.
abbrev key_term : Units → Value → Units
key_term key value = key

kwargs_search_terms-IsWhole_example :
    (kwargs_search_terms key_term (some (codes "{'a': 1}")) (some "json") ≡ found_by_text)
    ⊎ ((length (kwargs_search_terms key_term (some (codes "{'a': 1}")) (some "json")).terms ≤ 256)
        × IsWhole key_term
            (codes "{'a': 1}")
            (kwargs_search_terms key_term (some (codes "{'a': 1}")) (some "json")).terms
        × (is_known (some "json") ≡ true)
        × (length (codes "{'a': 1}") ≤ 4096)
        × (includes (codes "{'a': 1}") b'\\' ≡ false))
kwargs_search_terms-IsWhole_example =
    kwargs_search_terms-IsWhole key_term (codes "{'a': 1}") (some "json") refl
