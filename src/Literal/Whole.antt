-- ===== src/Literal/Whole.antt =====
-- When a record is found by its terms.
use celery_insights.Common.{
  ◌≤◌, ◌≡◌, refl, ◌∙◌, ap, true, false, not, ◌||◌, Option, some, List, String, length, ltb,
  includes, distinct, Eq-ℕ, Eq-List, arith, Bool-cases, inl, inr, ◌⊎◌, subst, sym,
}
use celery_insights.TaskSearch.{drop_spaces}
use celery_insights.Literal.{
  Units, Value, string, number, boolean, null, list, object, Entries, Parsed, parsed, rejected,
  too_deep, no_fuel, parse, Terms, terms_of_entries, object_terms, found_by_text, is_empty,
  is_known, kwargs_search_terms,
}

-- The terms are those of an object that is the whole text.
pub record IsWhole (term : Units → Value → Units) (raw : Units) (terms : List Units) : Type 0 where
  pub entries : Entries
  pub left : Units
  pub read : parse raw ≡ parsed (object entries) left
  pub nothing_left : is_empty (drop_spaces left) ≡ true
  pub all_terms : terms ≡ distinct (terms_of_entries term entries)

module _ (term : Units → Value → Units) where
  object_terms-IsWhole :
      (raw : Units) (p : Parsed Value)
      → parse raw ≡ p
      → (object_terms term p ≡ found_by_text)
        ⊎ ((length (object_terms term p).terms ≤ 256)
            × IsWhole term raw (object_terms term p).terms)
  object_terms-IsWhole raw (parsed (object entries) rest) same =
      let terms = distinct (terms_of_entries term entries) in
      elim (Bool-cases (is_empty (drop_spaces rest))) [
        | inr more ↦ inl (ground (arith, more))
        | inl whole ↦ elim (Bool-cases (ltb 256 (length terms))) [
          | inl many ↦ inl (ground (arith, whole, many))
          | inr few ↦
              let eq : object_terms term (parsed (object entries) rest)
                  ≡ record { terms = terms; fallback = false } =
                ground (arith, whole, few) in
              inr (
                ground (arith, eq, few),
                record {
                  entries = entries;
                  left = rest;
                  read = same;
                  nothing_left = whole;
                  all_terms = ap (λ (t : Terms). t.terms) eq;
                },
              )
        ]
      ]
  object_terms-IsWhole raw (parsed (string s) rest) same = inl refl
  object_terms-IsWhole raw (parsed (number s) rest) same = inl refl
  object_terms-IsWhole raw (parsed (boolean b) rest) same = inl refl
  object_terms-IsWhole raw (parsed null rest) same = inl refl
  object_terms-IsWhole raw (parsed (list vs) rest) same = inl refl
  object_terms-IsWhole raw rejected same = inl refl
  object_terms-IsWhole raw too_deep same = inl refl
  object_terms-IsWhole raw no_fuel same = inl refl

  -- A text that is there is found by its text, or its terms are at most 256 and are all the terms of
  -- an object that is the whole text; then it comes from a known source and has at most 4096 units
  -- and no backslash.
  pub kwargs_search_terms-IsWhole :
      (raw : Units) (source : Option String)
      → is_empty raw ≡ false
      → (kwargs_search_terms term (some raw) source ≡ found_by_text)
        ⊎ ((length (kwargs_search_terms term (some raw) source).terms ≤ 256)
            × IsWhole term raw (kwargs_search_terms term (some raw) source).terms
            × (is_known source ≡ true)
            × (length raw ≤ 4096)
            × (includes raw b'\\' ≡ false))
  unfolding kwargs_search_terms
  kwargs_search_terms-IsWhole raw source h =
      elim (Bool-cases (not (is_known source) || (ltb 4096 (length raw) || includes raw b'\\'))) [
        | inl unsafe ↦ inl (ground (arith, h, unsafe))
        | inr safe ↦
            let eq : kwargs_search_terms term (some raw) source ≡ object_terms term (parse raw) =
              ground (arith, h, safe) in
            elim (object_terms-IsWhole raw (parse raw) refl) [
              | inl text ↦ inl (eq ∙ text)
              | inr (few, whole) ↦ inr (
                subst (λ (t : Terms). length t.terms ≤ 256) (sym eq) few,
                subst (λ (t : Terms). IsWhole term raw t.terms) (sym eq) whole,
                ground (arith, safe),
                ground (arith, safe),
                ground (arith, safe),
              )
            ]
      ]
