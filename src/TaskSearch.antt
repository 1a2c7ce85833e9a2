-- ===== src/TaskSearch.antt =====
-- The SQL clauses of a task search: the clause builders of src/lib/task-search.ts and
-- src/lib/indexed-search.ts. The regular expressions that a `key=value` query gives, and its
-- index term, are arguments.
use celery_insights.Common.{
  ℕ, Bool, ◌||◌, Option, some, none, List, [], ◌∷◌, ◌++◌, map, String, if◌then◌else◌, is_some,
  length, drop, nat_eq, ltb,
}
use celery_insights.Common.Text.{◌<>◌, join}
use mathlib.Core.List.{reverse}
use Prim.Native.Nat.{◌-◌}

-- What a parameter of a statement is bound to.
pub data Binding : Type 0 where
  text : String → Binding
  characters : List ℕ → Binding
  texts : List String → Binding
  number : ℕ → Binding
  flag : Bool → Binding
  record_id : (table : String) → (key : String) → Binding
  null : Binding

-- An object of bindings. Where a key stands twice, the first entry is the one that counts.
abbrev pub Bindings : Type 0
Bindings = List (String × Binding)

-- `SPACE_CHARACTERS`.
unfoldable pub is_space : ℕ → Bool
is_space c = nat_eq c 32 || nat_eq c 9 || nat_eq c 10 || nat_eq c 13 || nat_eq c 12 || nat_eq c 11

unfoldable pub drop_spaces : List ℕ → List ℕ
drop_spaces [] = []
drop_spaces (c ∷ cs) = let rest = drop_spaces cs in if is_space c then rest else c ∷ cs

-- `trimQuery`.
unfoldable pub trim_query : List ℕ → List ℕ
trim_query query = reverse (drop_spaces (reverse (drop_spaces query)))

-- The patterns of a keyword search.
pub record Patterns : Type 0 where
  pub kwargs : String
  pub lenient : String

pub record TaskSearch : Type 0 where
  pub prelude : List String
  pub source : String
  pub clause : String
  pub bindings : Bindings

plain_text_fields : List String
plain_text_fields =
    "string::concat('', id)" ∷ "type ?? ''" ∷ "worker ?? ''" ∷ "exception ?? ''" ∷ "result ?? ''"
    ∷ "args ?? ''" ∷ "kwargs ?? ''" ∷ []

-- `PLAIN_TEXT_CLAUSE`.
unfoldable pub plain_text_clause : String
unfolding plain_text_fields
plain_text_clause = join " OR " (
    map (λ field. "string::contains(string::lowercase(" <> field <> "), $query)") plain_text_fields)

unfoldable pub keyword_clause : String
keyword_clause =
    "(string::matches(kwargs ?? '', $lenientKwargsPattern) AND (string::matches(kwargs ?? '', $kwargsPattern) OR !string::matches(kwargs ?? '', $tokenizesPattern) OR string::matches(kwargs ?? '', $malformedReprPattern))) OR "
    <> plain_text_clause

abbrev pub range_workflows_query : String
range_workflows_query =
    "SELECT VALUE root_task_id FROM workflow WHERE last_updated >= <datetime>$from AND last_updated <= <datetime>$to"

abbrev pub workflow_text_clause : String
workflow_text_clause =
    "string::contains(string::lowercase(root_task_id), $query) OR string::contains(string::lowercase(root_task_type ?? ''), $query) OR string::contains(string::lowercase(latest_exception_preview ?? ''), $query)"

-- `candidateSource`.
unfoldable pub candidate_source : String → String → String
candidate_source table extra =
    "IF (SELECT VALUE ready FROM search_config:current)[0] = true THEN\n  (SELECT VALUE record FROM "
    <> table <> "_search WHERE grams CONTAINS $searchGram OR text_fallback = true " <> extra
    <> ")\n  ELSE type::table('" <> table <> "') END"

-- `LET name = value`.
abbrev pub let_statement : String → String → String
let_statement name value = "LET " <> name <> " = " <> value

abbrev pub search_workflows : String → String → String
search_workflows source clause = let_statement "$searchWorkflows" (
    "array::distinct(SELECT VALUE workflow_id FROM " <> source
    <> " WHERE workflow_id IN $rangeWorkflows AND (" <> clause <> "))")

-- What the searches take from the literal parser and from the runtime: `toLowerCase`, the
-- patterns of a trimmed query, the two fixed patterns, and `keywordSearchTerm`.
pub record SearchCode : Type 0 where
  pub to_lower_case : List ℕ → List ℕ
  pub patterns : List ℕ → Option Patterns
  pub tokenizes : String
  pub malformed : String
  pub search_term : List ℕ → Option String

module _ (code : SearchCode) where
  open code use {to_lower_case, patterns, tokenizes, malformed, search_term}

  pattern_bindings : Option Patterns → Bindings
  pattern_bindings none = []
  pattern_bindings (some p) =
      ("kwargsPattern", text p.kwargs)
      ∷ ("lenientKwargsPattern", text p.lenient)
      ∷ ("tokenizesPattern", text tokenizes)
      ∷ ("malformedReprPattern", text malformed)
      ∷ []

  unfoldable pub is_keyword : List ℕ → Bool
  is_keyword query = is_some (patterns (trim_query query))

  unfoldable pub build_task_search : List ℕ → TaskSearch
  unfolding pattern_bindings
  build_task_search query = record {
    prelude = [];
    source = "task";
    clause = if is_keyword query then keyword_clause else plain_text_clause;
    bindings =
        pattern_bindings (patterns (trim_query query))
        ++ ("query", characters (to_lower_case (trim_query query))) ∷ [];
  }

  unfoldable pub build_workflow_search : List ℕ → TaskSearch
  build_workflow_search query =
      let search = build_task_search query in
      if is_keyword query
      then record search {
        prelude =
            let_statement "$rangeWorkflows" ("(" <> range_workflows_query <> ")")
            ∷ search_workflows "task" search.clause
            ∷ [];
        source = "workflow";
        clause = workflow_text_clause <> " OR root_task_id IN $searchWorkflows";
      }
      else record search { source = "workflow"; clause = workflow_text_clause }

  -- `[...trimmed].length < 3`.
  unfoldable pub is_short : List ℕ → Bool
  is_short query = ltb (length (to_lower_case (trim_query query))) 3

  abbrev last_three : List ℕ → List ℕ
  last_three cs = drop (length cs - 3) cs

  abbrev or_null : Option String → Binding
  or_null none = null
  or_null (some term) = text term

  abbrev index_bindings : List ℕ → Bindings
  index_bindings query =
      ("searchGram", characters (last_three (to_lower_case (trim_query query))))
      ∷ ("searchTerm", or_null (search_term query))
      ∷ []

  unfoldable pub build_indexed_task_search : List ℕ → TaskSearch
  build_indexed_task_search query =
      let search = build_task_search query in
      if is_short query then search else record search {
        prelude =
            let_statement "$searchTasks" (
              candidate_source "task"
                "OR kwargs_terms CONTAINS $searchTerm OR ($searchTerm != NULL AND kwargs_fallback = true)")
            ∷ [];
        source = "$searchTasks";
        bindings = index_bindings query ++ search.bindings;
      }

  unfoldable pub member_prelude : List ℕ → List String
  member_prelude query =
      let tasks = build_indexed_task_search query in
      if is_keyword query
      then tasks.prelude
        ++ let_statement "$rangeWorkflows" ("(" <> range_workflows_query <> ")")
          ∷ search_workflows tasks.source tasks.clause
          ∷ []
      else []

  unfoldable pub build_indexed_workflow_search : List ℕ → TaskSearch
  build_indexed_workflow_search query =
      let original = build_workflow_search query in
      if is_short query then original else record original {
        prelude =
            member_prelude query
            ++ let_statement "$searchWorkflowRows" (
                candidate_source "workflow"
                  (if is_keyword query then "OR record.root_task_id IN $searchWorkflows" else ""))
              ∷ [];
        source = "$searchWorkflowRows";
        bindings = (build_indexed_task_search query).bindings;
      }
