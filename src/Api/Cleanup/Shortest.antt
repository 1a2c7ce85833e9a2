-- ===== src/Api/Cleanup/Shortest.antt =====
-- The workflows that are removed because there are too many tasks.
use celery_insights.Common.{
  ℕ, zero, suc, ◌+◌, ◌-◌, ◌≤◌, ◌<◌, ◌≡◌, refl, ap, sym, ◌∙◌, subst, Bool, true, false, ◌&&◌, List,
  [], ◌∷◌, ◌++◌, String, some, length, take, all, leb, arith, Bool-cases, inl, inr, ◌⊎◌,
}
use mathlib.Core.List.{Perm}
use celery_insights.Api.Cleanup.{
  Workflow, Store, Direction, asc, OrderBy, count_of, remove_excess, workflow_ids, over_count,
}

-- The number of tasks of some workflows.
abbrev pub total_tasks : List Workflow → ℕ
total_tasks [] = 0
total_tasks (w ∷ ws) = count_of w + total_tasks ws

-- Each of the first workflows is at most as recent as each of the others.
abbrev pub are_older : (gone kept : List Workflow) → Bool
are_older gone kept = all (λ w. all (λ k. leb w.last_updated k.last_updated) kept) gone

abbrev pub is_ascending : (Workflow → ℕ) → List Workflow → Bool
is_ascending key [] = true
is_ascending key (w ∷ ws) = all (λ v. leb (key w) (key v)) ws && is_ascending key ws

-- `ORDER BY` returns the rows it is given, and with `ASC` each before those of a greater key.
pub record Orders (order_by : OrderBy) : Type 0 where
  pub reorders :
      (key : Workflow → ℕ) (direction : Direction) (ws : List Workflow)
      → Perm (order_by key direction ws) ws
  pub ascends :
      (key : Workflow → ℕ) (ws : List Workflow) → is_ascending key (order_by key asc ws) ≡ true

-- The shortest prefix with enough tasks, or all workflows.
record IsShortest (excess : ℕ) (workflows : List Workflow) (removed : List String) : Type 0 where
  gone : List Workflow
  kept : List Workflow
  whole : gone ++ kept ≡ workflows
  by_id : removed ≡ workflow_ids gone
  enough : (excess ≤ total_tasks gone) ⊎ (kept ≡ [])
  needed : (m : ℕ) → m < length gone → total_tasks (take m gone) < excess

none_needed :
    (excess : ℕ) (workflows : List Workflow)
    → 0 < excess
    → (m : ℕ) → m < 1
    → total_tasks (take m workflows) < excess
unfolding take
none_needed excess workflows h zero lt = h
none_needed excess workflows h (suc m) lt = absurd (omega arith)

one_more :
    (excess : ℕ) (w : Workflow) (ws : List Workflow) (n : ℕ)
    → leb excess (count_of w) ≡ false
    → ((m : ℕ) → m < n → total_tasks (take m ws) < excess - count_of w)
    → (m : ℕ) → m < suc n
    → total_tasks (take m (w ∷ ws)) < excess
unfolding take
one_more excess w ws n more needed zero lt = ground (arith, more)
one_more excess w ws n more needed (suc m) lt =
    let fewer = needed m (omega arith) in ground (arith, more, fewer)

remove_excess-IsShortest :
    (excess : ℕ) (workflows : List Workflow)
    → 0 < excess
    → IsShortest excess workflows (remove_excess excess workflows)
unfolding remove_excess
remove_excess-IsShortest excess [] h = record {
  gone = [];
  kept = [];
  whole = refl;
  by_id = refl;
  enough = inr refl;
  needed = λ m lt. absurd (omega arith);
}
remove_excess-IsShortest excess (w ∷ ws) h = elim (Bool-cases (leb excess (count_of w))) [
  | inl last ↦ record {
    gone = w ∷ [];
    kept = ws;
    whole = refl;
    by_id = ground (arith, last);
    enough = inl (ground (arith, last));
    needed = none_needed excess (w ∷ []) h;
  }
  | inr more ↦
      let rest = remove_excess-IsShortest (excess - count_of w) ws (ground (arith, more)) in
      record {
        gone = w ∷ rest.gone;
        kept = rest.kept;
        whole = ap (λ others. w ∷ others) rest.whole;
        by_id = ground (arith, more, rest.by_id);
        enough = elim rest.enough [
          | inl some_left ↦ inl (ground (arith, some_left, more))
          | inr all_gone ↦ inr all_gone
        ];
        needed = one_more excess w rest.gone (length rest.gone) more rest.needed;
      }
]

module _ (key : Workflow → ℕ) where
  all-append_last :
      (p : Workflow → Bool) (xs ys : List Workflow) → all p (xs ++ ys) ≡ true → all p ys ≡ true
  unfolding all
  all-append_last p [] ys h = h
  all-append_last p (x ∷ xs) ys h = all-append_last p xs ys (ground (arith, h))

  -- In an ascending list, the first ones come before the others.
  is_ascending-append :
      (xs ys : List Workflow)
      → is_ascending key (xs ++ ys) ≡ true
      → all (λ w. all (λ k. leb (key w) (key k)) ys) xs ≡ true
  unfolding all
  is_ascending-append [] ys h = refl
  is_ascending-append (x ∷ xs) ys h =
      let first = all-append_last (λ v. leb (key x) (key v)) xs ys (ground (arith, h)) in
      let rest = is_ascending-append xs ys (ground (arith, h)) in ground (arith, first, rest)

-- The workflows that are gone and those that are kept, when at most `max` tasks are wanted.
pub record IsOldest (max : ℕ) (s : Store) (removed : List String) : Type 0 where
  pub gone : List Workflow
  pub kept : List Workflow
  pub whole : Perm (gone ++ kept) s.workflows
  pub by_id : removed ≡ workflow_ids gone
  pub oldest : are_older gone kept ≡ true
  pub enough : (length s.tasks ≤ max + total_tasks gone) ⊎ (kept ≡ [])
  pub needed : (m : ℕ) → m < length gone → max + total_tasks (take m gone) < length s.tasks

-- If the database's `ORDER BY` orders, then a limit on the number of tasks removes the oldest
-- workflows: the stored ones are those that are removed and those that are kept, and none that is
-- removed was updated after one that is kept. It removes as many as it takes and no more: without
-- their tasks, as the workflows count them, the limit is met, or all workflows are removed; and
-- without those of fewer of them it is not. While the limit is met nothing is removed.
pub over_count-IsOldest :
    (order_by : OrderBy) (max : ℕ) (s : Store)
    → Orders order_by
    → (max < length s.tasks → IsOldest max s (over_count order_by (some max) s))
      × (length s.tasks ≤ max → over_count order_by (some max) s ≡ [])
unfolding over_count
over_count-IsOldest order_by max s orders = (
  λ over.
      let by_age = order_by (λ w. w.last_updated) asc s.workflows in
      let short = remove_excess-IsShortest (length s.tasks - max) by_age (omega (arith, over)) in
      let eq : over_count order_by (some max) s ≡ remove_excess (length s.tasks - max) by_age =
        ground (arith, over) in
      record {
        gone = short.gone;
        kept = short.kept;
        whole =
            subst (λ ws. Perm ws s.workflows) (sym short.whole)
              (orders.reorders (λ w. w.last_updated) asc s.workflows);
        by_id = eq ∙ short.by_id;
        oldest =
            is_ascending-append (λ w. w.last_updated) short.gone short.kept
              (ap (is_ascending (λ w. w.last_updated)) short.whole
                ∙ orders.ascends (λ w. w.last_updated) s.workflows);
        enough = elim short.enough [
          | inl met ↦ inl (omega (arith, met))
          | inr all_gone ↦ inr all_gone
        ];
        needed = λ m lt. let few = short.needed m lt in omega (arith, few);
      },
  λ within. ground (arith, within),
)
