-- ===== src/Configuration/Accounts/Passwords.antt =====
-- The accounts that `resolveAccounts` gives.
use celery_insights.Common.{
  suc, ◌≤◌, ◌≡◌, refl, ap, true, false, not, ◌||◌, Option, some, none, String, filter, All, any,
  includes, lookup, ◌==◌, Eq-String, nat_eq, length, ltb, is_some, ok, other_error, throw_if,
  after-ok, arith, subst,
}
use celery_insights.Configuration.Values.{
  Value, text, array, table, Values, nil, cons, Table, end, entry, items, entries,
}
use celery_insights.Configuration.Loader.{Host, Env}
use celery_insights.Configuration.Accounts.{
  account_keys, password_sources, entry_of, is_printable, check_password, password_of,
  resolve_account, map_accounts, resolve_accounts,
}

module _ (host : Host) (env : Env) where
  -- An account with a password that can be checked: not empty, at most 4096 bytes, without control
  -- characters. No reference to a file or a variable is left.
  pub record IsAccount (account : Value) : Type 0 where
    pub fields : Table
    pub is_table : account ≡ table fields
    pub password : String
    pub given : lookup "password" (entries fields) ≡ some (text password)
    pub present : (password == "") ≡ false
    pub bounded : host.byte_length password ≤ 4096
    pub printable : is_printable password ≡ true
    pub no_reference :
        (lookup "password_file" (entries fields) ≡ none)
        × (lookup "password_env" (entries fields) ≡ none)

  abbrev account_table : Option Value → Option Value → String → Table
  account_table username roles password =
      entry_of "username" username (entry_of "roles" roles (entry "password" (text password) end))

  kept_password :
      (username roles : Option Value) (password : String)
      → (lookup "password" (entries (account_table username roles password)) ≡ some (text password))
        × (lookup "password_file" (entries (account_table username roles password)) ≡ none)
        × (lookup "password_env" (entries (account_table username roles password)) ≡ none)
  unfolding lookup
  kept_password none none password = (refl, refl, refl)
  kept_password none (some roles) password = (refl, refl, refl)
  kept_password (some username) none password = (refl, refl, refl)
  kept_password (some username) (some roles) password = (refl, refl, refl)

  check_password-ok :
      (given : Option String) (password : String)
      → check_password host env given ≡ ok password
      → ((password == "") ≡ false)
        × (host.byte_length password ≤ 4096)
        × (is_printable password ≡ true)
  unfolding check_password
  check_password-ok none password h = cc
  check_password-ok (some other) password h =
      (ground (arith, h), ground (arith, h), ground (arith, h))

  resolve_account-IsAccount :
      (v account : Value) → resolve_account host env v ≡ ok account → IsAccount account
  unfolding resolve_account
  resolve_account-IsAccount (table t) account h =
      let item = entries t in
      let (u, _, h1) =
        after-ok (throw_if (any (λ field. not (includes account_keys field.0)) item) other_error)
          h in
      let (w, _, h2) =
        after-ok
          (throw_if
            (not (nat_eq (length (filter (λ key. is_some (lookup key item)) password_sources)) 1))
            other_error)
          h1 in
      let (given, _, h3) = after-ok (password_of host env item) h2 in
      let (password, checked, h4) = after-ok (check_password host env given) h3 in
      let (present, bounded, printable) = check_password-ok given password checked in
      let username = lookup "username" item in
      let roles = lookup "roles" item in
      let (kept, no_file, no_env) = kept_password username roles password in
      record {
        fields = account_table username roles password;
        is_table = ground (arith, h4);
        password = password;
        given = kept;
        present = present;
        bounded = bounded;
        printable = printable;
        no_reference = (no_file, no_env);
      }
  resolve_account-IsAccount _ account h = cc

  map_accounts-All :
      (vs accounts : Values)
      → map_accounts host env vs ≡ ok accounts
      → All IsAccount (items accounts) × (length (items accounts) ≡ length (items vs))
  unfolding map_accounts
  map_accounts-All nil accounts h =
      let eq : nil ≡ accounts = ground (arith, h) in
      subst (λ a. All IsAccount (items a) × (length (items a) ≡ 0)) eq (tt, refl)
  map_accounts-All (cons v vs) accounts h =
      let (account, own, h1) = after-ok (resolve_account host env v) h in
      let (rest, looped, h2) = after-ok (map_accounts host env vs) h1 in
      let (all, same) = map_accounts-All vs rest looped in
      let eq : cons account rest ≡ accounts = ground (arith, h2) in
      subst (λ a. All IsAccount (items a) × (length (items a) ≡ suc (length (items vs)))) eq
        ((resolve_account-IsAccount v account own, all), ap suc same)

  -- What `resolveAccounts` returns is an array of 1 to 100 accounts, as many as the document has,
  -- each with a password that is not empty, has at most 4096 bytes and no control character, and
  -- without the reference that the password came from.
  pub resolve_accounts-All :
      (v w : Value)
      → resolve_accounts host env v ≡ ok w
      → (vs : Values) × (accounts : Values) × (v ≡ array vs)
        × (w ≡ array accounts)
        × (length (items accounts) ≡ length (items vs))
        × (1 ≤ length (items accounts))
        × (length (items accounts) ≤ 100)
        × All IsAccount (items accounts)
  unfolding resolve_accounts
  resolve_accounts-All (array vs) w h =
      let (u, sized, h1) =
        after-ok
          (throw_if (nat_eq (length (items vs)) 0 || ltb 100 (length (items vs))) other_error) h in
      let (accounts, looped, h2) = after-ok (map_accounts host env vs) h1 in
      let (all, same) = map_accounts-All vs accounts looped in
      (
        vs,
        accounts,
        refl,
        ground (arith, h2),
        same,
        ground (arith, sized, same),
        ground (arith, sized, same),
        all,
      )
  resolve_accounts-All _ w h = cc
