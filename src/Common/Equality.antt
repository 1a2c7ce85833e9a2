-- ===== src/Common/Equality.antt =====
-- Strict equality of values as an interface, and the array and set operations that rest on it.
use Prim.Native.Nat.{ℕ}
use Prim.Native.String.{String}
use mathlib.Core.Path.{◌≡◌, refl, subst}
use mathlib.Core.Option.{Option, none, some}
use mathlib.Core.Logic.{◌↔◌, inl, inr}
use mathlib.Core.Bool.{Bool, true, false, not, ◌&&◌, ◌||◌}
use mathlib.Core.List.{List, [], ◌∷◌, ◌++◌}
use native.Mathlib.Omega.{arith}
use text.Mathlib.Text.{◌==◌ as str_eq}
use text.Mathlib.TextEquality.{eq_iff}
use celery_insights.Common.Numbers.{nat_eq, nat_eq_iff, if◌then◌else◌, Bool-cases}
use celery_insights.Common.Lists.{filter, All, all}

pub record Eq {κ} (T : Type κ) : Type κ where
  pub equals : (x y : T) → Bool
  pub equals_iff : (x y : T) → (equals x y ≡ true) ↔ (x ≡ y)

-- `===` on values of one type.
abbrev pub ◌==◌ {κ} : {T : Type κ} ⦃e : Eq T⦄ → (x y : T) → Bool
◌==◌ ⦃e⦄ = e.equals

infix 50 ◌==◌
instance abbrev pub Eq-String : Eq String
Eq-String = record { equals_iff = eq_iff; equals = str_eq }

instance abbrev pub Eq-ℕ : Eq ℕ
Eq-ℕ = record { equals_iff = nat_eq_iff; equals = nat_eq }

module _ {ℓ} {A : Type ℓ} ⦃e : Eq A⦄ where
  pub ==_refl : (a : A) → (a == a) ≡ true
  ==_refl a = (e.equals_iff a a).1 refl

  -- `xs.includes(a)`, and `set.has(a)` of a set kept as a list.
  unfoldable pub includes : List A → A → Bool
  includes [] a = false
  includes (x ∷ xs) a = x == a || includes xs a

  -- `[...new Set(xs)]`: the first occurrence of each value, in order.
  unfoldable pub distinct : List A → List A
  distinct [] = []
  distinct (x ∷ xs) = x ∷ filter (λ y. not (x == y)) (distinct xs)

  pub includes-append :
      (xs ys : List A) (a : A) → includes (xs ++ ys) a ≡ (includes xs a || includes ys a)
  unfolding includes
  includes-append [] ys a = refl
  includes-append (x ∷ xs) ys a = ground (arith, includes-append xs ys a)

  pub includes-filter :
      (p : A → Bool) (xs : List A) (a : A) → includes (filter p xs) a ≡ (includes xs a && p a)
  unfolding includes filter
  includes-filter p [] a = refl
  includes-filter p (x ∷ xs) a = elim (Bool-cases (x == a)) [
    | inl same ↦ ground (arith, includes-filter p xs a, (e.equals_iff x a).0 same)
    | inr other ↦ ground (arith, includes-filter p xs a)
  ]

  pub includes-distinct : (xs : List A) (a : A) → includes (distinct xs) a ≡ includes xs a
  unfolding includes distinct
  includes-distinct [] a = refl
  includes-distinct (x ∷ xs) a =
      ground (arith, includes-distinct xs a, includes-filter (λ y. not (x == y)) (distinct xs) a)

  all-filter_other :
      (p : A → Bool) (x : A) (ys : List A)
      → p x ≡ true
      → all p (filter (λ y. not (x == y)) ys) ≡ all p ys
  unfolding all filter
  all-filter_other p x [] h = refl
  all-filter_other p x (y ∷ ys) h = elim (Bool-cases (x == y)) [
    | inl same ↦ ground (arith, all-filter_other p x ys h, (e.equals_iff x y).0 same)
    | inr other ↦ ground (arith, all-filter_other p x ys h)
  ]

  pub all-distinct : (p : A → Bool) (xs : List A) → all p (distinct xs) ≡ all p xs
  unfolding all distinct
  all-distinct p [] = refl
  all-distinct p (x ∷ xs) = ground (arith, all-distinct p xs, all-filter_other p x (distinct xs))

-- `record[key]` of an object literal, as pairs in the order written.
unfoldable pub lookup {ℓ κ} : {K : Type ℓ} {V : Type κ} ⦃e : Eq K⦄ → K → List (K × V) → Option V
lookup key [] = none
lookup key ((name, value) ∷ rest) = if name == key then some value else lookup key rest

-- What holds of every entry holds of the one found.
pub All-lookup {ℓ κ} :
    {K : Type ℓ} {V : Type κ} ⦃e : Eq K⦄ (P : K → V → Type 0) (k : K) (m : List (K × V)) {v : V}
    → All (λ entry. P entry.0 entry.1) m
    → lookup k m ≡ some v
    → P k v
unfolding lookup
All-lookup P k [] h found = cc
All-lookup ⦃e⦄ P k ((j, w) ∷ m) {v} h found = elim (Bool-cases (j == k)) [
  | inl same ↦ subst (λ x. P x v) ((e.equals_iff j k).0 same) (subst (P j) (ground arith) h.0)
  | inr other ↦ All-lookup P k m h.1 (ground arith)
]

-- Equal arrays: as long, and equal item by item.
unfoldable pub list_eq {ℓ} : {A : Type ℓ} ⦃e : Eq A⦄ → List A → List A → Bool
list_eq [] [] = true
list_eq (x ∷ xs) (y ∷ ys) = x == y && list_eq xs ys
list_eq _ _ = false

pub list_eq_iff {ℓ} : {A : Type ℓ} ⦃e : Eq A⦄ (xs ys : List A) → (list_eq xs ys ≡ true) ↔ (xs ≡ ys)
unfolding list_eq
list_eq_iff [] [] = (λ _. refl, λ _. refl)
list_eq_iff [] (y ∷ ys) = (λ h. cc, λ h. cc)
list_eq_iff (x ∷ xs) [] = (λ h. cc, λ h. cc)
list_eq_iff ⦃e⦄ (x ∷ xs) (y ∷ ys) =
    let head = e.equals_iff x y in
    let rest = list_eq_iff xs ys in
    (λ h. ground (arith, head, rest), λ h. ground (arith, head, rest))

instance abbrev pub Eq-List {ℓ} : {A : Type ℓ} ⦃e : Eq A⦄ → Eq (List A)
Eq-List = record { equals = list_eq; equals_iff = list_eq_iff }

abbrev pub option_eq {ℓ} : {A : Type ℓ} ⦃e : Eq A⦄ → Option A → Option A → Bool
option_eq none none = true
option_eq (some a) (some b) = a == b
option_eq _ _ = false

pub option_eq_iff {ℓ} : {A : Type ℓ} ⦃e : Eq A⦄ (a b : Option A) → (option_eq a b ≡ true) ↔ (a ≡ b)
option_eq_iff none none = (λ _. refl, λ _. refl)
option_eq_iff none (some b) = (λ h. cc, λ h. cc)
option_eq_iff (some a) none = (λ h. cc, λ h. cc)
option_eq_iff ⦃e⦄ (some a) (some b) =
    let same = e.equals_iff a b in (λ h. ground (arith, same), λ h. ground (arith, same))

instance abbrev pub Eq-Option {ℓ} : {A : Type ℓ} ⦃e : Eq A⦄ → Eq (Option A)
Eq-Option = record { equals = option_eq; equals_iff = option_eq_iff }
