-- ===== src/LiveQuery/Tests.antt =====
-- A live list of workers, by host name and load, shown by rising load.
use celery_insights.Common.{
  ℕ, ◌≡◌, refl, Bool, Option, some, none, List, [], ◌∷◌, String, ◌==◌, Eq-String, if◌then◌else◌,
  leb, Bool-cases, inl, inr, any, all,
}
use celery_insights.LiveQuery.{
  create, update, delete, LiveMessage, refresh, change, Options, State, on_change, handle_all,
}
use celery_insights.LiveQuery.Keys.{get, has, is_distinct}
use celery_insights.LiveQuery.Laws.{change_one, on_change-get}
use celery_insights.LiveQuery.Shown.{IsShown, handle_all-IsShown}
use mathlib.Core.List.{Permᴰ}
use mathlib.Core.List.Permᴰ
use text.Mathlib.TextEquality.{eq_iff}

abbrev Row : Type 0
Row = String × ℕ

insert : Row → List Row → List Row
insert x [] = x ∷ []
insert x (y ∷ ys) = let rest = insert x ys in if leb x.1 y.1 then x ∷ y ∷ ys else y ∷ rest

sort : List Row → List Row
sort [] = []
sort (x ∷ xs) = insert x (sort xs)

insert-perm : (x : Row) (ys : List Row) → Permᴰ (x ∷ ys) (insert x ys)
unfolding insert
insert-perm x [] = Permᴰ.refl (x ∷ [])
insert-perm x (y ∷ ys) = elim (Bool-cases (leb x.1 y.1)) [
  | inl le ↦ rw le (Permᴰ.refl (x ∷ y ∷ ys))
  | inr gt ↦ rw gt (Permᴰ.trans (Permᴰ.swap refl refl) (Permᴰ.cons refl (insert-perm x ys)))
]

sort-perm : (xs : List Row) → Permᴰ xs (sort xs)
unfolding sort
sort-perm [] = Permᴰ.nil
sort-perm (x ∷ xs) = Permᴰ.trans (Permᴰ.cons refl (sort-perm xs)) (insert-perm x (sort xs))

abbrev name : Row → String
name row = row.0

abbrev spelled : String → String
spelled s = s

abbrev equal : String → String → Bool
equal s t = s == t

abbrev by_load : Option ℕ → Options Row
by_load limit = record { filter = some (λ row. leb row.1 90); order_by = some sort; limit = limit }

abbrev workers : List Row
workers = ("a", 10) ∷ ("b", 20) ∷ []

on_change-get_example :
    get name "b" (on_change equal spelled name (by_load none) update ("b", 5) workers)
    ≡ some ("b", 5)
unfolding change_one is_distinct has any
on_change-get_example =
    on_change-get equal spelled name (λ a b. (eq_iff a b).0) (by_load none) update ("b", 5) "b"
      workers sort-perm refl refl

abbrev news : List (LiveMessage Row)
news =
    change create ("c", 15)
    ∷ change update ("a", 95)
    ∷ refresh
    ∷ change create ("d", 1)
    ∷ change delete ("b", 20)
    ∷ []

abbrev before : State Row
before = record { items = workers; refreshes = 0 }

handle_all-IsShown_example :
    IsShown name
      (by_load (some 2))
      (handle_all equal spelled name (by_load (some 2)) news before).items
unfolding is_distinct has any all
handle_all-IsShown_example =
    handle_all-IsShown equal spelled name (λ a b. (eq_iff a b).0) (by_load (some 2)) sort-perm news
      before (record { distinct_ids = refl; wanted = refl; bounded = refl })
