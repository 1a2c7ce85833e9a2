-- ===== src/LiveQuery/Shown.antt =====
-- The invariants of the list that a live query shows.
use celery_insights.Common.{
  ℕ, ◌≤◌, ◌≡◌, refl, sym, subst, ◌∙◌, Bool, true, false, not, Option, some, none, List, [], ◌∷◌,
  ◌++◌, String, ◌==◌, Eq-String, filter, all, length, arith, leb, length-filter-le, length-take-le,
  all-append, all-filter, all-take,
}
use celery_insights.LiveQuery.{
  Action, create, update, delete, killed, LiveMessage, change, refresh, Options, State, find_index,
  sorted, limited, passes, apply_order_and_limit, refers, on_create, on_update_at, on_update,
  on_change, handle, handle_all,
}
use celery_insights.LiveQuery.Keys.{
  has, is_distinct, replace, set_elem-find_index, find_index-none, is_distinct-append,
  is_distinct-filter, is_distinct-replace, all-replace, is_distinct-take, is_distinct-perm,
  all-perm,
}
use celery_insights.LiveQuery.Laws.{
  Reorders, any-refers, find_index-refers, sorted-perm, on_delete-filter,
}

-- `limit === undefined || length <= limit`.
abbrev pub within : Option ℕ → ℕ → Bool
within none n = true
within (some limit) n = leb n limit

within-le : (limit : Option ℕ) (m n : ℕ) → m ≤ n → within limit n ≡ true → within limit m ≡ true
within-le none m n le h = refl
within-le (some limit) m n le h = ground arith

within-limited :
    {T : Type 0} (limit : Option ℕ) (xs : List T) → within limit (length (limited limit xs)) ≡ true
within-limited none xs = refl
within-limited (some limit) xs = ground (arith, length-take-le limit xs)

module _ {T : Type 0} (key : T → String) where
  -- Ids are distinct, every record passes the filter, and the limit is kept.
  pub record IsShown (options : Options T) (items : List T) : Type 0 where
    pub distinct_ids : is_distinct key items ≡ true
    pub wanted : all (passes options.filter) items ≡ true
    pub bounded : within options.limit (length items) ≡ true

  limited-IsShown :
      (options : Options T) (items : List T)
      → is_distinct key items ≡ true
      → all (passes options.filter) items ≡ true
      → (limit : Option ℕ)
      → (is_distinct key (limited limit items) ≡ true)
        × (all (passes options.filter) (limited limit items) ≡ true)
  limited-IsShown options items h good none = (h, good)
  limited-IsShown options items h good (some limit) =
      ground (arith, is_distinct-take key limit items, all-take (passes options.filter) limit items)

  apply-IsShown :
      (options : Options T) (items : List T)
      → Reorders options.order_by
      → is_distinct key items ≡ true
      → all (passes options.filter) items ≡ true
      → IsShown options (apply_order_and_limit options items)
  unfolding apply_order_and_limit
  apply-IsShown options items reorders h good =
      let order = sorted-perm options.order_by items reorders in
      let kept =
        limited-IsShown options (sorted options.order_by items)
          (sym (is_distinct-perm key order) ∙ h)
          (sym (all-perm key (passes options.filter) order) ∙ good) options.limit in
      record {
        distinct_ids = kept.0;
        wanted = kept.1;
        bounded = within-limited options.limit (sorted options.order_by items);
      }

  append-IsShown :
      (options : Options T) (row : T) (items : List T)
      → Reorders options.order_by
      → IsShown options items
      → has key (key row) items ≡ false
      → passes options.filter row ≡ true
      → IsShown options (apply_order_and_limit options (items ++ (row ∷ [])))
  unfolding all
  append-IsShown options row items reorders h absent good =
      apply-IsShown options (items ++ (row ∷ [])) reorders
        (is_distinct-append key row items h.distinct_ids absent)
        (ground (arith, h.wanted, good, all-append (passes options.filter) items (row ∷ [])))

  filter-IsShown :
      (options : Options T) (p : T → Bool) (items : List T)
      → IsShown options items
      → IsShown options (filter p items)
  filter-IsShown options p items h = record {
    distinct_ids = is_distinct-filter key p items h.distinct_ids;
    wanted = all-filter (passes options.filter) p items h.wanted;
    bounded =
        within-le options.limit (length (filter p items)) (length items) (length-filter-le p items)
          h.bounded;
  }

  replace-IsShown :
      (options : Options T) (row : T) (items : List T)
      → Reorders options.order_by
      → IsShown options items
      → passes options.filter row ≡ true
      → IsShown options (apply_order_and_limit options (replace key row items))
  replace-IsShown options row items reorders h good =
      apply-IsShown options (replace key row items) reorders
        (is_distinct-replace key row items ∙ h.distinct_ids)
        (all-replace key (passes options.filter) row items good h.wanted)

module _ {T I : Type 0} (same : I → I → Bool) (to_string : I → String) (id : T → I)
    (same_text : (a b : I) → same a b ≡ true → to_string a ≡ to_string b) (options : Options T)
    (reorders : Reorders options.order_by) where
  abbrev text : T → String
  text x = to_string (id x)

  on_create-IsShown :
      (row : T) (prev : List T)
      → IsShown text options prev
      → IsShown text options (on_create same to_string id options row prev)
  unfolding on_create
  on_create-IsShown row prev h = ground (
    arith,
    h,
    any-refers same to_string id same_text row prev,
    append-IsShown text options row prev reorders h,
  )

  on_update_at-IsShown :
      (row : T) (prev : List T) (index : Option ℕ)
      → find_index (λ item. text item == text row) prev ≡ index
      → IsShown text options prev
      → IsShown text options (on_update_at same to_string id options row prev index)
  unfolding on_update_at has
  on_update_at-IsShown row prev none found h =
      let absent : has text (text row) prev ≡ false =
        find_index-none (λ item. text item == text row) prev found in
      ground (arith, h, absent, append-IsShown text options row prev reorders h)
  on_update_at-IsShown row prev (some i) found h =
      let replaced =
        subst
          (λ xs.
            passes options.filter row ≡ true
            → IsShown text options (apply_order_and_limit options xs))
          (sym (set_elem-find_index text row prev i found))
          (replace-IsShown text options row prev reorders h) in
      ground (
        arith,
        replaced,
        filter-IsShown text options (λ item. not (refers same to_string id row item)) prev h,
      )

  on_change-IsShown :
      (action : Action) (row : T) (prev : List T)
      → IsShown text options prev
      → IsShown text options (on_change same to_string id options action row prev)
  unfolding on_change on_update
  on_change-IsShown create row prev h = on_create-IsShown row prev h
  on_change-IsShown update row prev h =
      on_update_at-IsShown row prev (find_index (refers same to_string id row) prev)
        (sym (find_index-refers same to_string id same_text row prev)) h
  on_change-IsShown delete row prev h =
      subst (IsShown text options) (sym (on_delete-filter same to_string id same_text row prev))
        (filter-IsShown text options (λ item. not (text item == text row)) prev h)
  on_change-IsShown killed row prev h = h

  -- Whatever messages come, a list that starts with distinct ids, wanted records and no more than
  -- the limit stays so, if the sort only reorders and equal ids have equal texts.
  pub handle_all-IsShown :
      (messages : List (LiveMessage T)) (s : State T)
      → IsShown text options s.items
      → IsShown text options (handle_all same to_string id options messages s).items
  unfolding handle_all handle
  handle_all-IsShown [] s h = h
  handle_all-IsShown (refresh ∷ messages) s h = handle_all-IsShown messages _ h
  handle_all-IsShown (change action row ∷ messages) s h =
      handle_all-IsShown messages _ (on_change-IsShown action row s.items h)
