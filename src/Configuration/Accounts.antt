-- ===== src/Configuration/Accounts.antt =====
-- `resolveAccounts` of runtime/authentication-config.ts.
pub mod Passwords
use celery_insights.Common.{
  ℕ, zero, suc, ◌+◌, Bool, true, false, not, ◌&&◌, ◌||◌, Option, some, none, List, [], ◌∷◌, String,
  map, filter, if◌then◌else◌, all, any, ltb, leb, includes, lookup, ◌==◌, Eq-String, nat_eq, length,
  is_some, Result, ok, err, other_error, throw_if, ◌>>◌, ◌>>=◌,
}
use celery_insights.Common.Text.{codes, is_upper, is_lower, is_digit}
use celery_insights.Configuration.Values.{
  Value, text, array, table, Values, nil, cons, Table, end, entry, items, entries, drop_newline,
}
use celery_insights.Configuration.Loader.{Host, Env}

abbrev pub account_keys : List String
account_keys = "username" ∷ "roles" ∷ "password" ∷ "password_file" ∷ "password_env" ∷ []

abbrev pub password_sources : List String
password_sources = "password" ∷ "password_file" ∷ "password_env" ∷ []

abbrev is_word : ℕ → Bool
is_word c = is_upper c || (is_lower c || (is_digit c || nat_eq c b'_'))

-- `/^[A-Za-z_][A-Za-z0-9_]*$/`.
unfoldable pub is_identifier : List ℕ → Bool
is_identifier [] = false
is_identifier (c ∷ cs) = not (is_digit c) && all is_word (c ∷ cs)

-- No control character.
unfoldable pub is_printable : String → Bool
is_printable s = all (λ c. not (ltb c 32 || nat_eq c 127)) (codes s)

abbrev pub some_text : Option String → Result String
some_text none = err other_error
some_text (some s) = ok s

-- `item[key]`, of a text.
abbrev pub text_at : Option Value → Option String
text_at (some (text s)) = some s
text_at _ = none

-- `with key`, unless the value is undefined.
abbrev pub entry_of : String → Option Value → Table → Table
entry_of key none rest = rest
entry_of key (some value) rest = entry key value rest

module _ (host : Host) (env : Env) where
  unfoldable pub file_password : Option Value → Result (Option String)
  file_password (some (text name)) =
      throw_if (name == "") other_error
      >> some_text (host.read (host.resolve_path host.file_directory name))
      >>= λ content. ok (some (drop_newline content))
  file_password _ = err other_error

  unfoldable pub env_password : Option Value → Result (Option String)
  env_password (some (text name)) =
      throw_if (not (is_identifier (codes name))) other_error >> ok (env name)
  env_password _ = err other_error

  -- The one source that is given.
  unfoldable pub password_of : List (String × Value) → Result (Option String)
  password_of item =
      if is_some (lookup "password_env" item)
      then env_password (lookup "password_env" item)
      else if is_some (lookup "password_file" item)
      then file_password (lookup "password_file" item)
      else ok (text_at (lookup "password" item))

  unfoldable pub check_password : Option String → Result String
  check_password none = err other_error
  check_password (some password) =
      throw_if
        (password == "" || (ltb 4096 (host.byte_length password) || not (is_printable password)))
        other_error
      >> ok password

  unfoldable pub resolve_account : Value → Result Value
  resolve_account (table t) = do
    throw_if (any (λ field. not (includes account_keys field.0)) (entries t)) other_error
    throw_if
        (not
          (nat_eq (length (filter (λ key. is_some (lookup key (entries t))) password_sources)) 1))
        other_error
    given ← password_of (entries t)
    password ← check_password given
    ok (
        table (
          entry_of "username" (lookup "username" (entries t))
            (entry_of "roles" (lookup "roles" (entries t)) (entry "password" (text password) end))))
  resolve_account _ = err other_error

  -- `value.map`, which stops at the first account that throws.
  unfoldable pub map_accounts : Values → Result Values
  map_accounts nil = ok nil
  map_accounts (cons v vs) =
      resolve_account v >>= λ account. map_accounts vs >>= λ accounts. ok (cons account accounts)

  unfoldable pub resolve_accounts : Value → Result Value
  resolve_accounts (array vs) = do
    throw_if (nat_eq (length (items vs)) 0 || ltb 100 (length (items vs))) other_error
    accounts ← map_accounts vs
    ok (array accounts)
  resolve_accounts _ = err other_error
