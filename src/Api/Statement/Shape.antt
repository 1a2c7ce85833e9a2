-- ===== src/Api/Statement/Shape.antt =====
-- What of an export's request the text of its statement depends on.
use celery_insights.Common.{
  ℕ, ◌≡◌, refl, ◌∙◌, ap, sym, subst, String, Bool, true, false, includes, ◌==◌, ==_refl, Bool-cases,
  inl, inr, List, [], ◌∷◌, flat_map, if◌then◌else◌, arith, Eq-String,
}
use celery_insights.TaskSearch.{SearchCode, trim_query}
use celery_insights.Observation.Queries.Compile.Shape.{
  SameSearch, build_indexed_task_search-same, build_indexed_workflow_search-same,
}
use celery_insights.Export.Server.{Table, task, workflow, event}
use celery_insights.Api.Statement.{
  Export, table_of, mappings, is_empty, condition_of, allowed_sort, sort_of, direction_of,
  search_of, conditions_of, export_sql, export_statement,
}

-- The columns that a request may sort the tasks and the workflows by.
abbrev pub sortable : (workflows : Bool) → List String
sortable false =
    "last_updated" ∷ "state" ∷ "type" ∷ "worker" ∷ "runtime" ∷ "sent_at" ∷ "started_at" ∷ []
sortable true =
    "last_updated" ∷ "aggregate_state" ∷ "root_task_type" ∷ "task_count" ∷ "failure_count"
    ∷ "active_count" ∷ "worker_count" ∷ []

-- Two texts name the same of these columns, or both name none of them.
abbrev pub NamesSame : List String → String → String → Type 0
NamesSame columns a b = (c : String) → includes columns c ≡ true → (a == c) ≡ (b == c)

-- Two texts that name none of the columns.
pub NamesSame-none :
    (columns : List String) (a b : String)
    → includes columns a ≡ false
    → includes columns b ≡ false
    → NamesSame columns a b
NamesSame-none columns a b h k c named =
    not_named columns a c h named ∙ sym (not_named columns b c k named)
  where
    not_named :
        (columns : List String) (a c : String)
        → includes columns a ≡ false
        → includes columns c ≡ true
        → (a == c) ≡ false
    not_named columns a c h named = elim (Bool-cases (a == c)) [
      | inl same ↦ absurd (ground (arith, h, named, (Eq-String.equals_iff a c).0 same))
      | inr other ↦ other
    ]

-- What is chosen among some columns is the same for both.
choice-same :
    (columns : List String) (a b otherwise : String)
    → NamesSame columns a b
    → (if includes columns a then a else otherwise) ≡ (if includes columns b then b else otherwise)
choice-same columns a b otherwise h = elim (Bool-cases (includes columns a)) [
  | inl named ↦
      let same : b ≡ a = (Eq-String.equals_iff b a).0 (sym (h a named) ∙ ==_refl a) in
      ap (λ x. if includes columns x then x else otherwise) (sym same)
  | inr other ↦ elim (Bool-cases (includes columns b)) [
    | inl named ↦
        let same : a ≡ b = (Eq-String.equals_iff a b).0 (h b named ∙ ==_refl b) in
        ap (λ x. if includes columns x then x else otherwise) same
    | inr none_named ↦ ground (arith, other, none_named)
  ]
]

module _ (code : SearchCode) (trim : List ℕ → List ℕ) where
  -- Two requests of the same kind, mode and direction, whose texts to sort by name the same column
  -- that may be sorted by, or none, which list values for the same fields and make the same kind of
  -- search. The values may differ, and so may texts to sort by that name none of the columns.
  pub record SameExport (p q : Export) : Type 0 where
    pub raw_events : p.raw_events ≡ q.raw_events
    pub workflows : p.workflows ≡ q.workflows
    pub states : is_empty p.states ≡ is_empty q.states
    pub types : is_empty p.types ≡ is_empty q.types
    pub workers : is_empty p.workers ≡ is_empty q.workers
    pub workflow_states : is_empty p.workflow_states ≡ is_empty q.workflow_states
    pub root_types : is_empty p.root_types ≡ is_empty q.root_types
    pub sorts : NamesSame (sortable p.workflows) p.sort_field q.sort_field
    pub descending : p.descending ≡ q.descending
    pub queried : is_empty (trim_query p.query) ≡ is_empty (trim_query q.query)
    pub trimmed : is_empty (trim p.query) ≡ is_empty (trim q.query)
    pub search : SameSearch code p.query q.query

  mappings-same :
      (table : Table) (p q : Export)
      → SameExport p q
      → flat_map condition_of (mappings table p) ≡ flat_map condition_of (mappings table q)
  unfolding flat_map mappings
  mappings-same task p q h = rw (h.states, h.types, h.workers) refl
  mappings-same workflow p q h = rw (h.workflow_states, h.root_types) refl
  mappings-same event p q h = rw (h.types) refl

  search_of-same :
      (table : Table) (p q : Export)
      → SameExport p q
      → ((search_of code trim table p).prelude ≡ (search_of code trim table q).prelude)
        × ((search_of code trim table p).source ≡ (search_of code trim table q).source)
        × ((search_of code trim table p).conditions ≡ (search_of code trim table q).conditions)
  unfolding search_of
  search_of-same task p q h =
      let same = build_indexed_task_search-same code p.query q.query h.search in
      ground (arith, h.queried, same)
  search_of-same workflow p q h =
      let same = build_indexed_workflow_search-same code p.query q.query h.search in
      ground (arith, h.queried, same)
  search_of-same event p q h = ground (arith, h.trimmed)

  sort-same :
      (p q : Export)
      → SameExport p q
      → (sort_of (table_of q) p ≡ sort_of (table_of q) q)
        × (direction_of (table_of q) p ≡ direction_of (table_of q) q)
  unfolding allowed_sort
  sort-same p q h = by_table q.raw_events q.workflows h.workflows
    where
      by_table :
          (raw workflows : Bool)
          → p.workflows ≡ workflows
          → let table = if raw then event else if workflows then workflow else task in
            (sort_of table p ≡ sort_of table q) × (direction_of table p ≡ direction_of table q)
      by_table true workflows same = (refl, refl)
      by_table false true same = (
        choice-same (sortable true) p.sort_field q.sort_field "last_updated"
            (subst (λ w. NamesSame (sortable w) p.sort_field q.sort_field) same h.sorts),
        rw (h.descending) refl,
      )
      by_table false false same = (
        choice-same (sortable false) p.sort_field q.sort_field "last_updated"
            (subst (λ w. NamesSame (sortable w) p.sort_field q.sort_field) same h.sorts),
        rw (h.descending) refl,
      )

  export_sql-same :
      (p q : Export)
      → SameExport p q
      → export_sql code trim (table_of q) p ≡ export_sql code trim (table_of q) q
  unfolding export_sql conditions_of
  export_sql-same p q h =
      let table = table_of q in
      let (prelude, source, conditions) = search_of-same table p q h in
      let (sort, direction) = sort-same p q h in
      rw (prelude, source, conditions, mappings-same table p q h, sort, direction) refl

  -- The values of a request are not in the text of its statement: two requests of the same kind,
  -- mode and direction, which list values for the same fields and make the same kind of search, and
  -- whose texts to sort by name the same one of the seven columns that may be sorted by, or both none
  -- of them, have the same text, whatever times, states, types, workers, query and other text to
  -- sort by they give.
  pub export_statement-same :
      (p q : Export)
      → SameExport p q
      → (export_statement code trim p).sql ≡ (export_statement code trim q).sql
  unfolding export_statement
  export_statement-same p q h =
      ap (λ b. export_sql code trim (if b then event else if p.workflows then workflow else task) p)
        h.raw_events
      ∙ ap
          (λ b.
            export_sql code trim (if q.raw_events then event else if b then workflow else task) p)
          h.workflows
      ∙ export_sql-same p q h
