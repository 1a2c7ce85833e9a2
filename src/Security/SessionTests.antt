-- ===== src/Security/SessionTests.antt =====
-- Runs of sessions at concrete inputs.
use celery_insights.Common.{
  ℕ, ◌≡◌, refl, true, false, Option, some, none, List, [], ◌∷◌, String, ok, all, includes, lookup,
  arith, find, flat_map, distinct, filter, list_eq, Eq-String,
}
use celery_insights.Common.Json.{Fields, end, field, string, number, get}
use celery_insights.Common.Text.{split, codes, strip}
use celery_insights.Security.Permissions.{viewer, operator}
use celery_insights.Security.Http.{Account, basic, oidc, account_principal}
use celery_insights.Security.Sessions.{
  Sessions, Jose, sealed, session_payload, issue, seal, cookie, session_principal, set_field,
  subject, after_prefix, read_cookie, trim, drop_blanks, values_of, open_token,
}
use celery_insights.Security.Sessions.Redirect.{Url, return_path, is_local, return_path-local}
use celery_insights.Security.Sessions.Roundtrip.{
  Opens, IsKnown, of_account, session_principal-issue,
}
use celery_insights.Security.Sessions.Callback.{
  Provider, callback, sign_in, exchange, admitted, claimed_subject, mapped_roles, land,
}
use celery_insights.Security.Sessions.Callback.Admission.{IsSignedIn, callback-IsSignedIn}

abbrev ada : Account
ada = record { username = "ada"; password = "secret"; roles = viewer ∷ [] }

abbrev token : List ℕ
token = codes "a.b.c"

abbrev accounts : Sessions
accounts = record {
  config = record {
    mode = some basic;
    public_origin = "https://host";
    sessions = true;
    accounts = ada ∷ [];
  };
  session_seconds = none;
  role_mappings = [];
  prefix = codes "/insights";
  revision = "r";
  cookie_name = codes "s";
  transaction_name = codes "t";
}

abbrev payload : Fields
payload = field "sub" (string "ada") (
    field "revision" (string "r") (field "purpose" (string "session") (field "exp" (number 9) end)))

abbrev jose : Jose
jose = record {
  encrypt = λ issuer audience now seconds fields. token;
  decrypt = λ issuer audience now text. some payload;
}

sealed-ada :
    sealed accounts (session_payload accounts (account_principal ada)) "session"
    ≡ field "sub"
        (string "ada")
        (field "revision" (string "r") (field "purpose" (string "session") end))
unfolding sealed session_payload set_field subject after_prefix
sealed-ada = refl

kept_ada :
    (key : String)
    → includes ("iss" ∷ "aud" ∷ "iat" ∷ "exp" ∷ []) key ≡ false
    → get key payload
      ≡ get key (
          field "sub"
            (string "ada")
            (field "revision" (string "r") (field "purpose" (string "session") end)))
unfolding get lookup includes
kept_ada key h = ground (arith, h)

Opens-ada :
    Opens jose accounts 100 200 28800
      (sealed accounts (session_payload accounts (account_principal ada)) "session")
unfolding all get lookup
Opens-ada = record {
  opened = payload;
  decrypts = λ h. refl;
  kept = λ key h. rw sealed-ada (kept_ada key h);
  expires = refl;
  plain = refl;
  present = refl;
}

IsKnown-ada : IsKnown accounts (account_principal ada)
unfolding find after_prefix
IsKnown-ada = of_account ada refl refl refl refl

session_principal-issue_example :
    session_principal jose accounts 200 (some (codes "s=a.b.c")) ≡ ok (account_principal ada)
unfolding issue seal all
session_principal-issue_example =
    session_principal-issue jose accounts 100 200 (account_principal ada)
      (cookie accounts (codes "s") token 28800) Opens-ada refl IsKnown-ada refl (omega arith)

abbrev parse : List ℕ → Option Url
parse text = some (record { origin = "https://host"; pathname = text; search = [] })

-- A destination outside the prefix gives the application's first page.
return_path_outside :
    return_path parse accounts (some (codes "//evil.example")) ≡ codes "/insights/"
unfolding return_path strip
return_path_outside = refl

-- Without a prefix, a path that starts with two slashes is taken as it is.
return_path_two_slashes :
    return_path parse (record accounts { prefix = [] }) (some (codes "//evil.example"))
    ≡ codes "//evil.example"
unfolding return_path strip list_eq
return_path_two_slashes = refl

return_path-local_example :
    is_local (return_path parse accounts (some (codes "/insights/tasks"))) ≡ true
return_path-local_example = return_path-local parse accounts (some (codes "/insights/tasks")) refl

abbrev company : Sessions
company = record accounts {
  config = record {
    mode = some oidc;
    public_origin = "https://host";
    sessions = true;
    accounts = [];
  };
  role_mappings = record { claim = "team"; value = "ops"; roles = operator ∷ [] } ∷ [];
}

abbrev transaction : Fields
transaction = field "verifier" (string "v") (
    field "state" (string "x") (
      field "nonce" (string "n") (
        field "revision" (string "r")
          (field "purpose" (string "oidc") (field "exp" (number 9) end)))))

abbrev provider : Provider
provider = record {
  discovered = ok tt;
  grant = λ query verifier state nonce.
      ok (some (field "sub" (string "ada") (field "team" (string "ops") end)));
  trimmed = λ name. name;
  shortened = λ name. name;
  text = λ path. "";
}

abbrev transactions : Jose
transactions = record jose { decrypt = λ issuer audience now text. some transaction }

callback_status :
    (callback transactions parse company provider 100 (some (codes "t=x")) []).status ≡ 200
unfolding callback land sign_in open_token read_cookie split trim drop_blanks values_of strip get
    lookup exchange admitted claimed_subject mapped_roles distinct flat_map filter issue seal
    return_path
callback_status = refl

callback-IsSignedIn_example :
    IsSignedIn transactions parse company provider 100
      (some (codes "t=x"))
      []
      (callback transactions parse company provider 100 (some (codes "t=x")) [])
callback-IsSignedIn_example =
    callback-IsSignedIn transactions parse company provider 100 (some (codes "t=x")) []
      callback_status
