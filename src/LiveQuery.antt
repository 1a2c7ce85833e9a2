-- ===== src/LiveQuery.antt =====
-- Live lists of the dashboard: `handleLiveMessage` and `applyOrderAndLimit` of
-- src/hooks/use-live-query.ts. The state is the list that the hook shows and the number of
-- refreshes it asked for; `===` on record ids, `String(id)` and the sort by the comparator are
-- parameters.
pub mod Keys
pub mod Laws
pub mod Shown
mod Tests
use celery_insights.Common.{
  ℕ, zero, suc, ◌+◌, Bool, true, false, not, ◌&&◌, ◌||◌, Option, some, none, List, [], ◌∷◌, ◌++◌,
  String, ◌==◌, Eq-String, if◌then◌else◌, filter, any, take, length, ltb, nat_eq,
}

pub data Action : Type 0 where
  create update delete killed : Action

-- The value of a message: the refresh marker of the observation API, or a record.
pub data LiveMessage (T : Type 0) : Type 0 where
  refresh : LiveMessage T
  change : Action → T → LiveMessage T

-- The current options: `filter`, `orderBy` as the sort that it gives, and `limit`.
pub record Options (T : Type 0) : Type 0 where
  pub filter : Option (T → Bool)
  pub order_by : Option (List T → List T)
  pub limit : Option ℕ

pub record State (T : Type 0) : Type 0 where
  pub items : List T
  pub refreshes : ℕ

-- `xs.findIndex(p)`, with none for -1.
unfoldable pub find_index : {T : Type 0} → (T → Bool) → List T → Option ℕ
find_index p [] = none
find_index p (x ∷ xs) =
    let rest = find_index p xs in
    if p x then some 0 else elim rest [ none ↦ none | some i ↦ some (suc i) ]

-- `xs[i] = y`.
unfoldable pub set_elem : {T : Type 0} → ℕ → T → List T → List T
set_elem i y [] = []
set_elem zero y (x ∷ xs) = y ∷ xs
set_elem (suc i) y (x ∷ xs) = x ∷ set_elem i y xs

abbrev pub sorted : {T : Type 0} → Option (List T → List T) → List T → List T
sorted none items = items
sorted (some sort) items = sort items

abbrev pub limited : {T : Type 0} → Option ℕ → List T → List T
limited none items = items
limited (some limit) items = if ltb limit (length items) then take limit items else items

abbrev pub passes : {T : Type 0} → Option (T → Bool) → T → Bool
passes none row = true
passes (some p) row = p row

unfoldable pub apply_order_and_limit : {T : Type 0} → Options T → List T → List T
apply_order_and_limit options items = limited options.limit (sorted options.order_by items)

module _ {T I : Type 0} (same : I → I → Bool) (to_string : I → String) (id : T → I) where
  unfoldable pub record_id_equals : I → I → Bool
  record_id_equals a b = same a b || to_string a == to_string b

  abbrev pub refers : T → T → Bool
  refers row item = record_id_equals (id item) (id row)

  -- The branch of "CREATE".
  unfoldable pub on_create : Options T → T → List T → List T
  on_create options row prev =
      if not (passes options.filter row)
      then prev
      else if any (refers row) prev
      then prev
      else apply_order_and_limit options (prev ++ (row ∷ []))

  -- The branch of "UPDATE", given the index of the record.
  unfoldable pub on_update_at : Options T → T → List T → Option ℕ → List T
  on_update_at options row prev none =
      if not (passes options.filter row)
      then prev
      else apply_order_and_limit options (prev ++ (row ∷ []))
  on_update_at options row prev (some i) =
      if not (passes options.filter row)
      then filter (λ item. not (refers row item)) prev
      else apply_order_and_limit options (set_elem i row prev)

  unfoldable pub on_update : Options T → T → List T → List T
  on_update options row prev = on_update_at options row prev (find_index (refers row) prev)

  -- The branch of "DELETE".
  unfoldable pub on_delete : T → List T → List T
  on_delete row prev =
      let next = filter (λ item. not (refers row item)) prev in
      if nat_eq (length next) (length prev) then prev else next

  unfoldable pub on_change : Options T → Action → T → List T → List T
  on_change options create row prev = on_create options row prev
  on_change options update row prev = on_update options row prev
  on_change options delete row prev = on_delete row prev
  on_change options killed row prev = prev

  unfoldable pub handle : Options T → LiveMessage T → State T → State T
  handle options refresh s = record s { refreshes = s.refreshes + 1 }
  handle options (change action row) s = record s { items = on_change options action row s.items }

  unfoldable pub handle_all : Options T → List (LiveMessage T) → State T → State T
  handle_all options [] s = s
  handle_all options (message ∷ messages) s = handle_all options messages (handle options message s)
