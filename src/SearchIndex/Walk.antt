-- ===== src/SearchIndex/Walk.antt =====
-- The walk over the records of a table.
use celery_insights.Common.{
  ℕ, zero, suc, ◌≤◌, ◌<◌, ◌≡◌, refl, ◌∙◌, ap, sym, subst, Bool, true, ◌&&◌, Option, some, none,
  List, [], ◌∷◌, ◌++◌, filter, all, all-filter, take, drop, length, if◌then◌else◌, ltb, arith,
  Bool-cases, inl, inr,
}
use celery_insights.SearchIndex.{page_size, is_after, page, last_of, is_empty, walk}
use mathlib.Core.Option

-- The ids are in order, and none stands twice.
abbrev pub increasing : List ℕ → Bool
increasing [] = true
increasing (x ∷ xs) = all (ltb x) xs && increasing xs

filter-all : (p : ℕ → Bool) (xs : List ℕ) → all p xs ≡ true → filter p xs ≡ xs
unfolding filter all
filter-all p [] h = refl
filter-all p (x ∷ xs) h = ground (arith, h, filter-all p xs)

is_after-all :
    (after : Option ℕ) (x : ℕ) (xs : List ℕ)
    → is_after after x ≡ true
    → all (ltb x) xs ≡ true
    → all (is_after after) xs ≡ true
unfolding all
is_after-all after x [] h k = refl
is_after-all none x (y ∷ xs) h k = is_after-all none x xs h (ground (arith, k))
is_after-all (some a) x (y ∷ xs) h k =
    let rest = is_after-all (some a) x xs h (ground (arith, k)) in ground (arith, h, k, rest)

-- What comes after the first of the ids that are left.
filter-next :
    (after : Option ℕ) (ids : List ℕ) (x : ℕ) (rest : List ℕ)
    → increasing ids ≡ true
    → filter (is_after after) ids ≡ x ∷ rest
    → filter (is_after (some x)) ids ≡ rest
unfolding filter all
filter-next after [] x rest h k = cc
filter-next after (y ∷ ids) x rest h k = elim (Bool-cases (is_after after y)) [
  | inl later ↦
      let above : all (ltb y) ids ≡ true = ground (arith, h) in
      let whole = filter-all (is_after after) ids (is_after-all after y ids later above) in
      let same : y ≡ x = ground (arith, k, later) in
      let left : filter (is_after after) ids ≡ rest = ground (arith, k, later) in
      subst (λ z. filter (is_after (some z)) (y ∷ ids) ≡ rest) same
        (ground (arith, filter-all (ltb y) ids above, whole, left))
  | inr earlier ↦
      let left : filter (is_after after) ids ≡ x ∷ rest = ground (arith, k, earlier) in
      let next = filter-next after ids x rest (ground (arith, h)) left in
      let above : all (ltb y) (x ∷ rest) ≡ true =
        ap (all (ltb y)) (sym left) ∙ all-filter (ltb y) (is_after after) ids (ground (arith, h)) in
      ground (arith, next, above)
]

filter-last_of :
    (n : ℕ) (after : Option ℕ) (ids rest : List ℕ)
    → increasing ids ≡ true
    → filter (is_after after) ids ≡ rest
    → filter (is_after (last_of after (take n rest))) ids ≡ drop n rest
unfolding take drop last_of
filter-last_of zero after ids rest h k = k
filter-last_of (suc n) after ids [] h k = k
filter-last_of (suc n) after ids (x ∷ rest) h k =
    filter-last_of n (some x) ids rest h (filter-next after ids x rest h k)

take-drop : (n : ℕ) (xs : List ℕ) → take n xs ++ drop n xs ≡ xs
unfolding take drop
take-drop zero xs = refl
take-drop (suc n) [] = refl
take-drop (suc n) (x ∷ xs) = ap (λ ys. x ∷ ys) (take-drop n xs)

length-drop : (n : ℕ) (x : ℕ) (xs : List ℕ) → length (drop (suc n) (x ∷ xs)) ≤ length xs
unfolding drop
length-drop zero x xs = omega arith
length-drop (suc n) x [] = omega arith
length-drop (suc n) x (y ∷ xs) = omega (arith, length-drop n y xs)

walk-rest :
    (fuel : ℕ) (after : Option ℕ) (ids rest : List ℕ)
    → increasing ids ≡ true
    → filter (is_after after) ids ≡ rest
    → length rest < fuel
    → walk fuel after ids ≡ some rest
unfolding walk page take
walk-rest zero after ids rest h k lt = absurd (omega arith)
walk-rest (suc fuel) after ids [] h k lt = rw k refl
walk-rest (suc fuel) after ids (x ∷ rest) h k lt =
    let later =
      walk-rest fuel (last_of after (take page_size (x ∷ rest))) ids (drop page_size (x ∷ rest)) h
        (filter-last_of page_size after ids (x ∷ rest) h k)
        (omega (arith, length-drop 199 x rest)) in
    let rows = take page_size (x ∷ rest) in
    ap
      (λ left.
        if is_empty (take page_size left)
        then some []
        else Option.map (λ others. take page_size left ++ others)
            (walk fuel (last_of after (take page_size left)) ids))
      k
    ∙ ap (Option.map (λ others. rows ++ others)) later
    ∙ ap some (take-drop page_size (x ∷ rest))

is_after-none : (ids : List ℕ) → all (is_after none) ids ≡ true
unfolding all
is_after-none [] = refl
is_after-none (x ∷ ids) = is_after-none ids

-- The walk over a table whose ids are in order projects every record once, in order, and ends: as
-- many rounds as there are records, and one, are enough.
pub walk-all : (ids : List ℕ) → increasing ids ≡ true → walk (suc (length ids)) none ids ≡ some ids
walk-all ids h =
    walk-rest (suc (length ids)) none ids ids h (filter-all (is_after none) ids (is_after-none ids))
      (omega arith)
