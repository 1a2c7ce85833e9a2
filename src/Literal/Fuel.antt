-- ===== src/Literal/Fuel.antt =====
-- The fuel of the literal parser (src/lib/task-search.ts) is enough.
use celery_insights.Common.{
  ℕ, zero, suc, ◌+◌, ◌*◌, ◌≤◌, ◌<◌, ◌≡◌, true, [], ◌∷◌, length, arith, Bool-cases, inl, inr, lt→ltb,
}
use celery_insights.TaskSearch.{drop_spaces}
use celery_insights.Literal.{
  Units, Value, Values, Entries, parsed, then_parse, or_rejected, scalar, separator, colon, tail,
  head_is, parse_literal, parse_items, parse_entries, enough, parse,
}
use celery_insights.Literal.Shorter.{
  is_shorter, is_shorter_mono, is_shorter-then_parse, is_shorter-or_rejected, length-drop_spaces,
  length-separator, length-colon, scalar-is_shorter,
}

-- With this fuel, the three parsers do not run out of it.
record IsFueled (fuel : ℕ) : Type 0 where
  literal :
      (depth : ℕ) (text : Units)
      → 2 * length text + 1 ≤ fuel
      → is_shorter (length text) (parse_literal fuel depth text) ≡ true
  some_items :
      (depth : ℕ) (text : Units)
      → 2 * length text + 2 ≤ fuel
      → is_shorter (length text) (parse_items fuel depth text) ≡ true
  some_entries :
      (depth : ℕ) (text : Units)
      → 2 * length text + 2 ≤ fuel
      → is_shorter (length text) (parse_entries fuel depth text) ≡ true

shorter-tail : (c : ℕ) (text : Units) → head_is c text ≡ true → length (tail text) < length text
shorter-tail c [] h = cc
shorter-tail c (x ∷ text) h = omega arith

module _ (fuel : ℕ) (fueled : IsFueled fuel) where
  literal-step :
      (depth : ℕ) (text : Units)
      → 2 * length text + 1 ≤ suc fuel
      → is_shorter (length text) (parse_literal (suc fuel) depth text) ≡ true
  unfolding parse_literal
  literal-step depth text le =
      let left = drop_spaces text in
      let inner = drop_spaces (tail left) in
      let fewer = length-drop_spaces text in
      let next = length-drop_spaces (tail left) in
      elim (Bool-cases (head_is b'[' left)) [
        | inl opens ↦
            let shorter = shorter-tail b'[' left opens in
            let read =
              is_shorter-then_parse (length text) (length text) (parse_items fuel (suc depth) inner)
                (λ values rest. parsed (Value.list values) rest)
                (is_shorter_mono (length inner) (length text) (parse_items fuel (suc depth) inner)
                  (omega (arith, shorter, next, fewer))
                  (fueled.some_items (suc depth) inner (omega (arith, shorter, next, fewer, le))))
                (λ values rest lt. lt→ltb (length rest) (length text) lt) in
            ground (arith, opens, read)
        | inr other ↦ elim (Bool-cases (head_is b'{' left)) [
          | inl opens ↦
              let shorter = shorter-tail b'{' left opens in
              let read =
                is_shorter-then_parse (length text) (length text)
                  (parse_entries fuel (suc depth) inner)
                  (λ values rest. parsed (Value.object values) rest)
                  (is_shorter_mono (length inner) (length text)
                    (parse_entries fuel (suc depth) inner) (omega (arith, shorter, next, fewer))
                    (fueled.some_entries (suc depth) inner
                      (omega (arith, shorter, next, fewer, le))))
                  (λ values rest lt. lt→ltb (length rest) (length text) lt) in
              ground (arith, other, opens, read)
          | inr plain ↦
              let read =
                is_shorter_mono (length left) (length text) (scalar left) fewer
                  (scalar-is_shorter left) in
              ground (arith, other, plain, read)
        ]
      ]

  items-step :
      (depth : ℕ) (text : Units)
      → 2 * length text + 2 ≤ suc fuel
      → is_shorter (length text) (parse_items (suc fuel) depth text) ≡ true
  unfolding parse_items
  items-step depth text le = elim (Bool-cases (head_is b']' text)) [
    | inl closes ↦ let shorter = shorter-tail b']' text closes in ground (arith, closes, shorter)
    | inr goes ↦
        let more =
          is_shorter-then_parse (length text) (length text) (parse_literal fuel depth text)
            (λ value rest. or_rejected (separator b']' rest) (λ next.
              then_parse (parse_items fuel depth next)
                (λ values left. parsed (Values.cons value values) left)))
            (fueled.literal depth text (omega (arith, le)))
            (λ value rest lt.
              is_shorter-or_rejected (length text) (separator b']' rest)
                (λ next.
                  then_parse (parse_items fuel depth next)
                    (λ values left. parsed (Values.cons value values) left))
                (λ next same.
                  let after = length-separator b']' rest next same in
                  is_shorter-then_parse (length text) (length text) (parse_items fuel depth next)
                    (λ values left. parsed (Values.cons value values) left)
                    (is_shorter_mono (length next) (length text) (parse_items fuel depth next)
                      (omega (arith, after, lt))
                      (fueled.some_items depth next (omega (arith, after, lt, le))))
                    (λ values left less. lt→ltb (length left) (length text) less))) in
        ground (arith, goes, more)
  ]

  -- What follows a key.
  value-step :
      (depth n : ℕ) (key : Value) (start : Units)
      → length start < n
      → 2 * n + 1 ≤ fuel
      → is_shorter n (
          then_parse (parse_literal fuel depth start) (λ value rest.
            or_rejected (separator b'}' rest) (λ next.
              then_parse
                (parse_entries fuel depth next)
                (λ values left. parsed (Entries.entry key value values) left))))
        ≡ true
  value-step depth n key start lt le =
      is_shorter-then_parse n n (parse_literal fuel depth start)
        (λ value rest. or_rejected (separator b'}' rest) (λ next.
          then_parse (parse_entries fuel depth next)
            (λ values left. parsed (Entries.entry key value values) left)))
        (is_shorter_mono (length start) n (parse_literal fuel depth start) (omega (arith, lt))
          (fueled.literal depth start (omega (arith, lt, le))))
        (λ value rest less.
          is_shorter-or_rejected n (separator b'}' rest)
            (λ next.
              then_parse (parse_entries fuel depth next)
                (λ values left. parsed (Entries.entry key value values) left))
            (λ next same.
              let after = length-separator b'}' rest next same in
              is_shorter-then_parse n n (parse_entries fuel depth next)
                (λ values left. parsed (Entries.entry key value values) left)
                (is_shorter_mono (length next) n (parse_entries fuel depth next)
                  (omega (arith, after, less))
                  (fueled.some_entries depth next (omega (arith, after, less, le))))
                (λ values left fewer. lt→ltb (length left) n fewer)))

  entries-step :
      (depth : ℕ) (text : Units)
      → 2 * length text + 2 ≤ suc fuel
      → is_shorter (length text) (parse_entries (suc fuel) depth text) ≡ true
  unfolding parse_entries
  entries-step depth text le = elim (Bool-cases (head_is b'}' text)) [
    | inl closes ↦ let shorter = shorter-tail b'}' text closes in ground (arith, closes, shorter)
    | inr goes ↦
        let more =
          is_shorter-then_parse (length text) (length text) (parse_literal fuel depth text)
            (λ key after_key. or_rejected (colon after_key) (λ start.
              then_parse (parse_literal fuel depth start) (λ value rest.
                or_rejected (separator b'}' rest) (λ next.
                  then_parse (parse_entries fuel depth next)
                    (λ values left. parsed (Entries.entry key value values) left)))))
            (fueled.literal depth text (omega (arith, le)))
            (λ key after_key lt.
              is_shorter-or_rejected (length text) (colon after_key)
                (λ start. then_parse (parse_literal fuel depth start) (λ value rest.
                  or_rejected (separator b'}' rest) (λ next.
                    then_parse (parse_entries fuel depth next)
                      (λ values left. parsed (Entries.entry key value values) left))))
                (λ start same.
                  let after = length-colon after_key start same in
                  value-step depth (length text) key start (omega (arith, after, lt))
                    (omega (arith, le)))) in
        ground (arith, goes, more)
  ]

All-IsFueled : (fuel : ℕ) → IsFueled fuel
All-IsFueled zero = record {
  literal = λ depth text le. absurd (omega arith);
  some_items = λ depth text le. absurd (omega arith);
  some_entries = λ depth text le. absurd (omega arith);
}
All-IsFueled (suc fuel) = record {
  literal = literal-step fuel (All-IsFueled fuel);
  some_items = items-step fuel (All-IsFueled fuel);
  some_entries = entries-step fuel (All-IsFueled fuel);
}

-- The parser ends on every text: it reads a literal and leaves a shorter text, rejects the text, or
-- finds it nested too deeply, but it never runs out of the fuel that it is given.
pub parse-is_shorter : (text : Units) → is_shorter (length text) (parse text) ≡ true
unfolding parse
parse-is_shorter text = (All-IsFueled (enough text)).literal 0 text (omega arith)
