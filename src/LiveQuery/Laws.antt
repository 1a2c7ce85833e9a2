-- ===== src/LiveQuery/Laws.antt =====
-- What a live list holds for each id after a message.
use celery_insights.Common.{
  ℕ, ◌≡◌, sym, ap, ◌∙◌, Bool, true, false, not, Option, some, none, List, [], ◌∷◌, ◌++◌, String,
  ◌==◌, Eq-String, if◌then◌else◌, filter, any, arith, filter-length-eq,
}
use celery_insights.LiveQuery.{
  Action, create, update, delete, killed, Options, find_index, sorted, limited, passes,
  apply_order_and_limit, record_id_equals, refers, on_create, on_update_at, on_update, on_delete,
  on_change,
}
use celery_insights.LiveQuery.Keys.{
  get, has, is_distinct, replace, set_elem-find_index, find_index-none, find_index-some, has-get,
  get-append, is_distinct-append, get-remove, get-replace, is_distinct-replace, get-perm,
}
use text.Mathlib.TextEquality.{eq_iff}
use mathlib.Core.List.{Permᴰ}
use mathlib.Core.List.Permᴰ
use mathlib.Core.Path.{fun_ext}

-- Sorting by a comparator reorders the array.
abbrev pub Reorders : {T : Type 0} → Option (List T → List T) → Type 0
Reorders none = Unit
Reorders {T} (some sort) = (items : List T) → Permᴰ items (sort items)

pub sorted-perm :
    {T : Type 0} (order_by : Option (List T → List T)) (items : List T)
    → Reorders order_by
    → Permᴰ items (sorted order_by items)
sorted-perm none items reorders = Permᴰ.refl items
sorted-perm (some sort) items reorders = reorders items

-- What a message of one record makes of what the list holds for its id.
unfoldable pub change_one : {T : Type 0} → Action → Bool → T → Option T → Option T
change_one create wanted row (some old) = some old
change_one create wanted row none = if wanted then some row else none
change_one update wanted row old = if wanted then some row else none
change_one delete wanted row old = none
change_one killed wanted row old = old

module _ {T I : Type 0} (same : I → I → Bool) (to_string : I → String) (id : T → I)
    (same_text : (a b : I) → same a b ≡ true → to_string a ≡ to_string b) where
  abbrev pub key : T → String
  key x = to_string (id x)

  refers-key_at : (row item : T) → refers same to_string id row item ≡ (key item == key row)
  unfolding record_id_equals
  refers-key_at row item = ground (arith, same_text (id item) (id row), eq_iff (key item) (key row))

  refers-key : (row : T) → refers same to_string id row ≡ (λ item. key item == key row)
  refers-key row = fun_ext (refers-key_at row)

  pub any-refers :
      (row : T) (prev : List T) → any (refers same to_string id row) prev ≡ has key (key row) prev
  unfolding has
  any-refers row prev = ap (λ p. any p prev) (refers-key row)

  pub filter-refers :
      (row : T) (prev : List T)
      → filter (λ item. not (refers same to_string id row item)) prev
        ≡ filter (λ item. not (key item == key row)) prev
  filter-refers row prev = ap (λ p. filter (λ item. not (p item)) prev) (refers-key row)

  pub find_index-refers :
      (row : T) (prev : List T)
      → find_index (refers same to_string id row) prev
        ≡ find_index (λ item. key item == key row) prev
  find_index-refers row prev = ap (λ p. find_index p prev) (refers-key row)

  get-apply :
      (options : Options T) (k : String) (items : List T)
      → Reorders options.order_by
      → options.limit ≡ none
      → is_distinct key items ≡ true
      → get key k (apply_order_and_limit options items) ≡ get key k items
  unfolding apply_order_and_limit
  get-apply options k items reorders unlimited h =
      ap (λ l. get key k (limited l (sorted options.order_by items))) unlimited
      ∙ sym (get-perm key k (sorted-perm options.order_by items reorders) h)

  -- The result on which the statement about a message is proved.
  abbrev Changes : Options T → Action → T → String → List T → List T → Type 0
  Changes options action row k prev next = get key k next ≡ (
      if key row == k
      then change_one action (passes options.filter row) row (get key k prev)
      else get key k prev)

  on_create-Changes :
      (options : Options T) (row : T) (k : String) (prev : List T)
      → Reorders options.order_by
      → options.limit ≡ none
      → is_distinct key prev ≡ true
      → Changes options create row k prev (on_create same to_string id options row prev)
  unfolding on_create change_one
  on_create-Changes options row k prev reorders unlimited h = ground (
    arith,
    any-refers row prev,
    has-get key (key row) prev,
    has-get key k prev,
    get-append key k row prev,
    get-apply options k (prev ++ (row ∷ [])),
    is_distinct-append key row prev,
    eq_iff (key row) k,
  )

  pub on_delete-filter :
      (row : T) (prev : List T)
      → on_delete same to_string id row prev ≡ filter (λ item. not (key item == key row)) prev
  unfolding on_delete
  on_delete-filter row prev = ground (
    arith,
    filter-refers row prev,
    filter-length-eq (λ item. not (refers same to_string id row item)) prev,
  )

  on_delete-Changes :
      (options : Options T) (row : T) (k : String) (prev : List T)
      → Changes options delete row k prev (on_delete same to_string id row prev)
  unfolding change_one
  on_delete-Changes options row k prev =
      ap (get key k) (on_delete-filter row prev) ∙ get-remove key k (key row) prev

  on_update_at-Changes :
      (options : Options T) (row : T) (k : String) (prev : List T) (index : Option ℕ)
      → Reorders options.order_by
      → options.limit ≡ none
      → is_distinct key prev ≡ true
      → find_index (λ item. key item == key row) prev ≡ index
      → Changes options update row k prev (on_update_at same to_string id options row prev index)
  unfolding on_update_at change_one has
  on_update_at-Changes options row k prev none reorders unlimited h found =
      let absent : has key (key row) prev ≡ false =
        find_index-none (λ item. key item == key row) prev found in
      ground (
        arith,
        absent,
        has-get key (key row) prev,
        has-get key k prev,
        get-append key k row prev,
        get-apply options k (prev ++ (row ∷ [])),
        is_distinct-append key row prev,
        eq_iff (key row) k,
      )
  on_update_at-Changes options row k prev (some i) reorders unlimited h found =
      let present : has key (key row) prev ≡ true =
        find_index-some (λ item. key item == key row) prev i found in
      ground (
        arith,
        present,
        filter-refers row prev,
        get-remove key k (key row) prev,
        set_elem-find_index key row prev i found,
        get-replace key k row prev,
        is_distinct-replace key row prev,
        get-apply options k (replace key row prev),
      )

  -- Without a limit, and with distinct ids, a message changes what the list holds for its own id
  -- alone, and that as `change_one` says: a creation adds the record if it is new and wanted, an
  -- update leaves the record exactly if it is wanted, a deletion leaves none.
  pub on_change-get :
      (options : Options T) (action : Action) (row : T) (k : String) (prev : List T)
      → Reorders options.order_by
      → options.limit ≡ none
      → is_distinct key prev ≡ true
      → get key k (on_change same to_string id options action row prev) ≡ (
          if key row == k
          then change_one action (passes options.filter row) row (get key k prev)
          else get key k prev)
  unfolding on_change on_update change_one
  on_change-get options create row k prev reorders unlimited h =
      on_create-Changes options row k prev reorders unlimited h
  on_change-get options update row k prev reorders unlimited h =
      on_update_at-Changes options row k prev (find_index (refers same to_string id row) prev)
        reorders unlimited h (sym (find_index-refers row prev))
  on_change-get options delete row k prev reorders unlimited h =
      on_delete-Changes options row k prev
  on_change-get options killed row k prev reorders unlimited h = ground arith
