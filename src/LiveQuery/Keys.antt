-- ===== src/LiveQuery/Keys.antt =====
-- Lists of records that are found by a key: lookup, distinct keys, and what appending, removing,
-- replacing and reordering do to them. The key is the text of the record's id.
use celery_insights.Common.{
  ℕ, zero, suc, ◌≡◌, refl, sym, ap, ◌∙◌, Bool, true, false, not, ◌&&◌, ◌||◌, Option, some, none,
  List, [], ◌∷◌, ◌++◌, String, ◌==◌, Eq-String, if◌then◌else◌, filter, find, any, all, take, length,
  arith, is_some,
}
use celery_insights.LiveQuery.{find_index, set_elem}
use text.Mathlib.TextEquality.{eq_iff}
use mathlib.Core.List.{Permᴰ}

module _ {T : Type 0} where
  pub find_index-none : (p : T → Bool) (xs : List T) → find_index p xs ≡ none → any p xs ≡ false
  unfolding find_index any
  find_index-none p [] h = refl
  find_index-none p (x ∷ xs) h = ground (arith, find_index-none p xs)

  pub find_index-some :
      (p : T → Bool) (xs : List T) (i : ℕ) → find_index p xs ≡ some i → any p xs ≡ true
  unfolding find_index any
  find_index-some p [] i h = ground arith
  find_index-some p (x ∷ xs) zero h = ground arith
  find_index-some p (x ∷ xs) (suc i) h = ground (arith, find_index-some p xs i)

module _ {T : Type 0} (key : T → String) where
  unfoldable pub get : String → List T → Option T
  get k xs = find (λ x. key x == k) xs

  unfoldable pub has : String → List T → Bool
  has k xs = any (λ x. key x == k) xs

  unfoldable pub is_distinct : List T → Bool
  is_distinct [] = true
  is_distinct (x ∷ xs) = not (has (key x) xs) && is_distinct xs

  -- The first record of the key is replaced.
  unfoldable pub replace : T → List T → List T
  replace row [] = []
  replace row (x ∷ xs) =
      let rest = replace row xs in if key x == key row then row ∷ xs else x ∷ rest

  pub set_elem-find_index :
      (row : T) (xs : List T) (i : ℕ)
      → find_index (λ x. key x == key row) xs ≡ some i
      → set_elem i row xs ≡ replace row xs
  unfolding find_index set_elem replace
  set_elem-find_index row [] i h = ground arith
  set_elem-find_index row (x ∷ xs) zero h = ground arith
  set_elem-find_index row (x ∷ xs) (suc i) h = ground (arith, set_elem-find_index row xs i)

  pub has-get : (k : String) (xs : List T) → has k xs ≡ is_some (get k xs)
  unfolding get has find any
  has-get k [] = refl
  has-get k (x ∷ xs) = ground (arith, has-get k xs)

  pub get-append :
      (k : String) (row : T) (xs : List T)
      → get k (xs ++ (row ∷ []))
        ≡ (if has k xs then get k xs else if key row == k then some row else none)
  unfolding get has find any
  get-append k row [] = refl
  get-append k row (x ∷ xs) = ground (arith, get-append k row xs)

  pub has-append :
      (k : String) (row : T) (xs : List T) → has k (xs ++ (row ∷ [])) ≡ (has k xs || key row == k)
  unfolding has any
  has-append k row [] = ground arith
  has-append k row (x ∷ xs) = ground (arith, has-append k row xs)

  pub is_distinct-append :
      (row : T) (xs : List T)
      → is_distinct xs ≡ true
      → has (key row) xs ≡ false
      → is_distinct (xs ++ (row ∷ [])) ≡ true
  unfolding is_distinct has any
  is_distinct-append row [] h fresh = refl
  is_distinct-append row (x ∷ xs) h fresh = ground (
    arith,
    is_distinct-append row xs,
    has-append (key x) row xs,
    eq_iff (key x) (key row),
    eq_iff (key row) (key x),
  )

  pub get-remove :
      (k r : String) (xs : List T)
      → get k (filter (λ x. not (key x == r)) xs) ≡ (if r == k then none else get k xs)
  unfolding get find filter
  get-remove k r [] = ground arith
  get-remove k r (x ∷ xs) =
      ground (arith, get-remove k r xs, eq_iff (key x) r, eq_iff (key x) k, eq_iff r k)

  pub has-filter :
      (k : String) (p : T → Bool) (xs : List T) → has k xs ≡ false → has k (filter p xs) ≡ false
  unfolding has any filter
  has-filter k p [] h = refl
  has-filter k p (x ∷ xs) h = ground (arith, has-filter k p xs)

  pub is_distinct-filter :
      (p : T → Bool) (xs : List T) → is_distinct xs ≡ true → is_distinct (filter p xs) ≡ true
  unfolding is_distinct filter
  is_distinct-filter p [] h = refl
  is_distinct-filter p (x ∷ xs) h = ground (arith, is_distinct-filter p xs, has-filter (key x) p xs)

  pub get-replace :
      (k : String) (row : T) (xs : List T)
      → has (key row) xs ≡ true
      → get k (replace row xs) ≡ (if key row == k then some row else get k xs)
  unfolding get has find any replace
  get-replace k row [] h = ground arith
  get-replace k row (x ∷ xs) h =
      ground (
        arith,
        get-replace k row xs,
        eq_iff (key x) (key row),
        eq_iff (key x) k,
        eq_iff (key row) k,
      )

  pub has-replace : (k : String) (row : T) (xs : List T) → has k (replace row xs) ≡ has k xs
  unfolding has any replace
  has-replace k row [] = refl
  has-replace k row (x ∷ xs) =
      ground (
        arith,
        has-replace k row xs,
        eq_iff (key x) (key row),
        eq_iff (key x) k,
        eq_iff (key row) k,
      )

  pub is_distinct-replace : (row : T) (xs : List T) → is_distinct (replace row xs) ≡ is_distinct xs
  unfolding is_distinct replace
  is_distinct-replace row [] = refl
  is_distinct-replace row (x ∷ xs) =
      ground
        (arith, is_distinct-replace row xs, has-replace (key x) row xs, eq_iff (key x) (key row))

  pub length-replace : (row : T) (xs : List T) → length (replace row xs) ≡ length xs
  unfolding replace
  length-replace row [] = refl
  length-replace row (x ∷ xs) = ground (arith, length-replace row xs)

  pub all-replace :
      (p : T → Bool) (row : T) (xs : List T)
      → p row ≡ true
      → all p xs ≡ true
      → all p (replace row xs) ≡ true
  unfolding all replace
  all-replace p row [] good h = refl
  all-replace p row (x ∷ xs) good h = ground (arith, all-replace p row xs)

  pub has-take : (k : String) (n : ℕ) (xs : List T) → has k xs ≡ false → has k (take n xs) ≡ false
  unfolding has any take
  has-take k zero xs h = refl
  has-take k (suc n) [] h = refl
  has-take k (suc n) (x ∷ xs) h = ground (arith, has-take k n xs)

  pub is_distinct-take :
      (n : ℕ) (xs : List T) → is_distinct xs ≡ true → is_distinct (take n xs) ≡ true
  unfolding is_distinct take
  is_distinct-take zero xs h = refl
  is_distinct-take (suc n) [] h = refl
  is_distinct-take (suc n) (x ∷ xs) h = ground (arith, is_distinct-take n xs, has-take (key x) n xs)

  pub has-perm : {xs ys : List T} (k : String) → Permᴰ xs ys → has k xs ≡ has k ys
  unfolding has any
  has-perm k Permᴰ.nil = refl
  has-perm k (Permᴰ.cons e p) = rw (e, has-perm k p)
  has-perm k (Permᴰ.swap e f) = ground (arith, e, f)
  has-perm k (Permᴰ.trans p q) = has-perm k p ∙ has-perm k q

  pub is_distinct-perm : {xs ys : List T} → Permᴰ xs ys → is_distinct xs ≡ is_distinct ys
  unfolding is_distinct has any
  is_distinct-perm Permᴰ.nil = refl
  is_distinct-perm (Permᴰ.cons {b = b} e p) = rw (e, has-perm (key b) p, is_distinct-perm p)
  is_distinct-perm (Permᴰ.swap {a} {b} e f) =
      ground (arith, e, f, eq_iff (key a) (key b), eq_iff (key b) (key a))
  is_distinct-perm (Permᴰ.trans p q) = is_distinct-perm p ∙ is_distinct-perm q

  pub all-perm : {xs ys : List T} (p : T → Bool) → Permᴰ xs ys → all p xs ≡ all p ys
  unfolding all
  all-perm p Permᴰ.nil = refl
  all-perm p (Permᴰ.cons e d) = rw (e, all-perm p d)
  all-perm p (Permᴰ.swap e f) = ground (arith, e, f)
  all-perm p (Permᴰ.trans d d') = all-perm p d ∙ all-perm p d'

  pub length-perm : {xs ys : List T} → Permᴰ xs ys → length xs ≡ length ys
  length-perm Permᴰ.nil = refl
  length-perm (Permᴰ.cons e d) = ap suc (length-perm d)
  length-perm (Permᴰ.swap e f) = refl
  length-perm (Permᴰ.trans d d') = length-perm d ∙ length-perm d'

  -- Distinct keys make the lookup independent of the order.
  pub get-perm :
      {xs ys : List T} (k : String) → Permᴰ xs ys → is_distinct xs ≡ true → get k xs ≡ get k ys
  unfolding get find is_distinct has any
  get-perm k Permᴰ.nil h = refl
  get-perm k (Permᴰ.cons e d) h = ground (arith, e, get-perm k d)
  get-perm k (Permᴰ.swap {a} {b} e f) h = ground (
    arith,
    e,
    f,
    eq_iff (key a) (key b),
    eq_iff (key b) (key a),
    eq_iff (key a) k,
    eq_iff (key b) k,
  )
  get-perm k (Permᴰ.trans d d') h = get-perm k d h ∙ get-perm k d' (sym (is_distinct-perm d) ∙ h)
