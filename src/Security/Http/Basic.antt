-- ===== src/Security/Http/Basic.antt =====
-- Programmatic sign-in with explicit credentials.
use celery_insights.Common.{
  ℕ, zero, suc, ◌≤◌, ◌≡◌, refl, ◌↔◌, inl, inr, some, none, List, [], ◌∷◌, ◌++◌, arith, length, take,
  replicate, Eq-ℕ, Eq-List, list_eq_iff, Option-cases, ok,
}
use celery_insights.Common.Text.{codes}
use celery_insights.Security.Permissions.{Principal}
use celery_insights.Security.Http.{
  Snapshot, Account, fill_buffer, find_account, account_principal, verify,
}

-- A buffer that is long enough keeps the text: what was copied, then zeros.
take-append_inj :
    (n : ℕ) (xs ys us vs : List ℕ)
    → length xs ≡ length ys
    → length xs ≤ n
    → take n (xs ++ us) ≡ take n (ys ++ vs)
    → xs ≡ ys
unfolding take
take-append_inj n [] [] us vs e h t = refl
take-append_inj n [] (y ∷ ys) us vs e h t = absurd (omega arith)
take-append_inj n (x ∷ xs) [] us vs e h t = absurd (omega arith)
take-append_inj zero (x ∷ xs) (y ∷ ys) us vs e h t = absurd (omega arith)
take-append_inj (suc n) (x ∷ xs) (y ∷ ys) us vs e h t =
    ground (arith, take-append_inj n xs ys us vs)

fill_buffer_inj :
    (xs ys : List ℕ)
    → length xs ≡ length ys
    → length xs ≤ 4096
    → fill_buffer xs ≡ fill_buffer ys
    → xs ≡ ys
unfolding fill_buffer
fill_buffer_inj xs ys e h t = take-append_inj 4096 xs ys (replicate 4096 0) (replicate 4096 0) e h t

module _ (utf8_encode : List ℕ → List ℕ) (snapshot : Snapshot) (username supplied : List ℕ)
    (p : Principal) where
  verify-missing :
      find_account snapshot username ≡ none
      → ¬ (verify utf8_encode snapshot username supplied ≡ ok p)
  unfolding verify
  verify-missing missing h = ground arith

  module _ (account : Account) (found : find_account snapshot username ≡ some account) where
    verify-found :
        verify utf8_encode snapshot username supplied ≡ ok p
        → (utf8_encode (codes account.password) ≡ supplied)
          × (length supplied ≤ 4096)
          × (p ≡ account_principal account)
    unfolding verify
    verify-found h =
        let expected = utf8_encode (codes account.password) in
        ground (
          arith,
          list_eq_iff (fill_buffer supplied) (fill_buffer expected),
          fill_buffer_inj supplied expected,
        )

    verify-accepts :
        utf8_encode (codes account.password) ≡ supplied
        → length supplied ≤ 4096
        → p ≡ account_principal account
        → verify utf8_encode snapshot username supplied ≡ ok p
    unfolding verify
    verify-accepts same short who =
        let expected = utf8_encode (codes account.password) in
        ground (arith, list_eq_iff (fill_buffer supplied) (fill_buffer expected))

-- The credentials are accepted exactly when an account of that name exists, the password's bytes
-- are the supplied ones and they are at most 4096; comparing fixed buffers loses nothing.
pub verify_iff :
    (utf8_encode : List ℕ → List ℕ) (snapshot : Snapshot) (username supplied : List ℕ)
    (p : Principal)
    → (verify utf8_encode snapshot username supplied ≡ ok p) ↔ (
        (account : Account) × (find_account snapshot username ≡ some account)
        × (utf8_encode (codes account.password) ≡ supplied)
        × (length supplied ≤ 4096)
        × (p ≡ account_principal account))
verify_iff utf8_encode snapshot username supplied p = (
  λ h. elim (Option-cases (find_account snapshot username)) [
    | inl missing ↦ absurd (verify-missing utf8_encode snapshot username supplied p missing h)
    | inr (account, found) ↦
        let facts = verify-found utf8_encode snapshot username supplied p account found h in
        (account, found, facts.0, facts.1, facts.2)
  ],
  λ (account, found, same, short, who).
      verify-accepts utf8_encode snapshot username supplied p account found same short who,
)
