-- ===== src/Api/Ordering.antt =====
-- An `ORDER BY` of the workflows for the examples, by insertion.
use celery_insights.Common.{
  ℕ, ◌≤◌, ◌≡◌, refl, Bool, true, false, ◌&&◌, List, [], ◌∷◌, if◌then◌else◌, all, leb, arith,
  Bool-cases, inl, inr,
}
use mathlib.Core.List.{Perm}
use mathlib.Core.List.Perm
use celery_insights.Api.Cleanup.{Workflow, Direction, asc, desc, OrderBy}
use celery_insights.Api.Cleanup.Shortest.{is_ascending, Orders}

module _ (key : Workflow → ℕ) where
  unfoldable pub insert : Workflow → List Workflow → List Workflow
  insert w [] = w ∷ []
  insert w (v ∷ vs) = let rest = insert w vs in if leb (key w) (key v) then w ∷ v ∷ vs else v ∷ rest

  unfoldable pub sort : List Workflow → List Workflow
  sort [] = []
  sort (w ∷ ws) = insert w (sort ws)

  insert-perm : (w : Workflow) (ws : List Workflow) → Perm (insert w ws) (w ∷ ws)
  unfolding insert
  insert-perm w [] = Perm.rfl
  insert-perm w (v ∷ vs) = by_test (leb (key w) (key v)) (insert-perm w vs)
    where
      by_test :
          (test : Bool)
          → Perm (insert w vs) (w ∷ vs)
          → Perm (if test then w ∷ v ∷ vs else v ∷ insert w vs) (w ∷ v ∷ vs)
      by_test true rest = Perm.rfl
      by_test false rest = Perm.trans (Perm.cons v rest) (Perm.swap w v vs)

  sort-perm : (ws : List Workflow) → Perm (sort ws) ws
  unfolding sort
  sort-perm [] = Perm.rfl
  sort-perm (w ∷ ws) = Perm.trans (insert-perm w (sort ws)) (Perm.cons w (sort-perm ws))

  all-insert :
      (p : Workflow → Bool) (w : Workflow) (ws : List Workflow)
      → all p (insert w ws) ≡ (p w && all p ws)
  unfolding insert all
  all-insert p w [] = refl
  all-insert p w (v ∷ vs) = ground (arith, all-insert p w vs)

  all-leb :
      (m n : ℕ) (ws : List Workflow)
      → m ≤ n
      → all (λ v. leb n (key v)) ws ≡ true
      → all (λ v. leb m (key v)) ws ≡ true
  unfolding all
  all-leb m n [] le h = refl
  all-leb m n (w ∷ ws) le h =
      let rest = all-leb m n ws le (ground (arith, h)) in ground (arith, h, le, rest)

  insert-is_ascending :
      (w : Workflow) (ws : List Workflow)
      → is_ascending key ws ≡ true
      → is_ascending key (insert w ws) ≡ true
  unfolding insert all
  insert-is_ascending w [] h = refl
  insert-is_ascending w (v ∷ vs) h = elim (Bool-cases (leb (key w) (key v))) [
    | inl first ↦
        let later = all-leb (key w) (key v) vs (ground (arith, first)) (ground (arith, h)) in
        ground (arith, first, later, h)
    | inr last ↦
        let rest = insert-is_ascending w vs (ground (arith, h)) in
        let later = all-insert (λ u. leb (key v) (key u)) w vs in
        ground (arith, last, rest, later, h)
  ]

  sort-is_ascending : (ws : List Workflow) → is_ascending key (sort ws) ≡ true
  unfolding sort
  sort-is_ascending [] = refl
  sort-is_ascending (w ∷ ws) = insert-is_ascending w (sort ws) (sort-is_ascending ws)

-- The descending order is not used by the examples.
abbrev pub order_by : OrderBy
order_by key asc ws = sort key ws
order_by key desc ws = ws

reorders :
    (key : Workflow → ℕ) (direction : Direction) (ws : List Workflow)
    → Perm (order_by key direction ws) ws
reorders key asc ws = sort-perm key ws
reorders key desc ws = Perm.rfl

pub order_by-Orders : Orders order_by
order_by-Orders = record { reorders = reorders; ascends = sort-is_ascending }
