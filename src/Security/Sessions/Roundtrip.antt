-- ===== src/Security/Sessions/Roundtrip.antt =====
-- Sessions round trip: what `principal` makes of the cookie that `issue` gave.
use celery_insights.Common.{
  ℕ, ◌+◌, ◌≤◌, ◌<◌, ◌≡◌, refl, ◌∙◌, ap, sym, subst, true, false, lookup, some, none, List, [], ◌∷◌,
  ◌++◌, String, if◌then◌else◌, all, find, length, nat_eq, includes, ◌==◌, ==_refl, Eq-String,
  Eq-List, Eq-ℕ, Result, ok, ◌>>=◌, arith,
}
use celery_insights.Common.Json.{Fields, string, array, get}
use celery_insights.Common.Text.{◌<>◌}
use celery_insights.Security.Permissions.{Role, Principal}
use celery_insights.Security.Http.{Account, is_oidc, account_principal, or_throw, sign_in_required}
use celery_insights.Security.Sessions.{
  Sessions, Cookie, cookie, Jose, sealed, set_field, role_items, some_roles, session_roles,
  after_prefix, subject, session_payload, seconds_of, audience, is_truthy, seal, open_token,
  session_principal, issue, text_of, provider_session, account_session,
}
use celery_insights.Security.Sessions.Payload.{
  get-set_field, get-set_other, after_prefix-append, roles_of-items,
}
use celery_insights.Security.Sessions.Cookies.{is_plain, pair_of, read_cookie-pair}

-- What the theorem relies on of jose: a token that has not expired opens to the payload that was
-- sealed, with the registered claims added, and is made of base64url characters and dots.
abbrev pub registered : List String
registered = "iss" ∷ "aud" ∷ "iat" ∷ "exp" ∷ []

pub record Opens (jose : Jose) (s : Sessions) (now t seconds : ℕ) (payload : Fields) : Type 0 where
  pub opened : Fields
  pub decrypts :
      t < now + seconds
      → jose.decrypt s.config.public_origin
          (audience s)
          t
          (jose.encrypt s.config.public_origin (audience s) now seconds payload)
        ≡ some opened
  pub kept : (key : String) → includes registered key ≡ false → get key opened ≡ get key payload
  pub expires : is_truthy (get "exp" opened) ≡ true
  pub plain :
      all is_plain (jose.encrypt s.config.public_origin (audience s) now seconds payload) ≡ true
  pub present :
      nat_eq (length (jose.encrypt s.config.public_origin (audience s) now seconds payload)) 0
      ≡ false

-- The principals that sign in: of an account, or of the identity provider.
pub data IsKnown (s : Sessions) (p : Principal) : Type 0 where
  of_account :
      (account : Account)
      → is_oidc s.config.mode ≡ false
      → after_prefix "oidc:" account.username ≡ none
      → find (λ other. other.username == account.username) s.config.accounts ≡ some account
      → p ≡ account_principal account
      → IsKnown s p
  of_provider :
      (sub name : String) (role : Role) (roles : List Role)
      → is_oidc s.config.mode ≡ true
      → p ≡ record { account_id = "oidc:" <> sub; display_name = some name; roles = role ∷ roles }
      → IsKnown s p

get-sealed :
    (s : Sessions) (payload : Fields) (purpose key : String)
    → ("purpose" == key) ≡ false
    → ("revision" == key) ≡ false
    → get key (sealed s payload purpose) ≡ get key payload
unfolding sealed
get-sealed s payload purpose key h k =
    get-set_other key "purpose" (string purpose) (set_field "revision" (string s.revision) payload)
      h
    ∙ get-set_other key "revision" (string s.revision) payload k

get-revision :
    (s : Sessions) (payload : Fields) (purpose : String)
    → get "revision" (sealed s payload purpose) ≡ some (string s.revision)
unfolding sealed
get-revision s payload purpose =
    get-set_other "revision" "purpose" (string purpose)
      (set_field "revision" (string s.revision) payload) refl
    ∙ get-set_field "revision" (string s.revision) payload

get-purpose :
    (s : Sessions) (payload : Fields) (purpose : String)
    → get "purpose" (sealed s payload purpose) ≡ some (string purpose)
unfolding sealed
get-purpose s payload purpose =
    get-set_field "purpose" (string purpose) (set_field "revision" (string s.revision) payload)

module _ (jose : Jose) (s : Sessions) (now t seconds : ℕ) (payload : Fields) where
  open_token-seal :
      (purpose : String) (opens : Opens jose s now t seconds (sealed s payload purpose))
      → t < now + seconds
      → length (seal jose s now payload purpose seconds) ≤ 4096
      → open_token jose s t (some (seal jose s now payload purpose seconds)) purpose
        ≡ ok opens.opened
  unfolding open_token seal includes
  open_token-seal purpose opens h bound =
      let kept_purpose = opens.kept "purpose" refl ∙ get-purpose s payload purpose in
      let kept_revision = opens.kept "revision" refl ∙ get-revision s payload purpose in
      ground (
        arith,
        opens.present,
        opens.decrypts h,
        bound,
        kept_purpose,
        kept_revision,
        opens.expires,
        ==_refl purpose,
        ==_refl s.revision,
      )

subject-plain : (id : String) → after_prefix "oidc:" id ≡ none → subject id ≡ id
unfolding subject
subject-plain id h = ground (arith, h)

subject-provider : (sub : String) → subject ("oidc:" <> sub) ≡ sub
unfolding subject
subject-provider sub = ground (arith, after_prefix-append "oidc:" sub)

session_roles-items :
    (role : Role) (roles : List Role)
    → session_roles (some (array (role_items (role ∷ roles)))) ≡ some (role ∷ roles)
unfolding session_roles
session_roles-items role roles = ap some_roles (roles_of-items (role ∷ roles))

module _ (jose : Jose) (s : Sessions) where
  account_session-found :
      (account : Account)
      → find (λ other. other.username == account.username) s.config.accounts ≡ some account
      → account_session jose s account.username ≡ ok (account_principal account)
  account_session-found account h = rw h refl

  provider_session-payload :
      (payload : Fields) (sub name : String) (role : Role) (roles : List Role)
      → get "roles" payload ≡ some (array (role_items (role ∷ roles)))
      → get "display_name" payload ≡ some (string name)
      → provider_session jose s sub payload
        ≡ ok
            (record { account_id = "oidc:" <> sub; display_name = some name; roles = role ∷ roles })
  provider_session-payload payload sub name role roles h k =
      rw (h, k, session_roles-items role roles) refl

  -- What a session's payload gives.
  abbrev decoded : Fields → Result Principal
  decoded payload = or_throw (text_of (get "sub" payload)) sign_in_required >>= λ sub.
      if is_oidc s.config.mode
      then provider_session jose s sub payload
      else account_session jose s sub

  decoded-account :
      (payload : Fields) (account : Account)
      → is_oidc s.config.mode ≡ false
      → after_prefix "oidc:" account.username ≡ none
      → find (λ other. other.username == account.username) s.config.accounts ≡ some account
      → get "sub" payload ≡ get "sub" (session_payload s (account_principal account))
      → decoded payload ≡ ok (account_principal account)
  unfolding session_payload get lookup
  decoded-account payload account mode plain found h =
      rw (h, subject-plain account.username plain, mode) (account_session-found account found)

  -- The keys that a session is read from.
  abbrev Kept : Fields → Fields → Type 0
  Kept found payload =
      (get "sub" found ≡ get "sub" payload)
      × (get "roles" found ≡ get "roles" payload)
      × (get "display_name" found ≡ get "display_name" payload)

  abbrev provided : String → String → Role → List Role → Principal
  provided sub name role roles = record {
    account_id = "oidc:" <> sub;
    display_name = some name;
    roles = role ∷ roles;
  }

  decoded-provider :
      (payload : Fields) (sub name : String) (role : Role) (roles : List Role)
      → is_oidc s.config.mode ≡ true
      → Kept payload (session_payload s (provided sub name role roles))
      → decoded payload ≡ ok (provided sub name role roles)
  unfolding session_payload get lookup
  decoded-provider payload sub name role roles mode (h, k, l) =
      rw (h, subject-provider sub, mode)
        (provider_session-payload payload sub name role roles (k ∙ rw mode refl) (l ∙ rw mode refl))

  decoded-known :
      (payload : Fields) (p : Principal)
      → IsKnown s p
      → Kept payload (session_payload s p)
      → decoded payload ≡ ok p
  decoded-known payload p (of_account account mode plain found same) =
      subst (λ q. Kept payload (session_payload s q) → decoded payload ≡ ok q) (sym same)
        λ kept. decoded-account payload account mode plain found kept.0
  decoded-known payload p (of_provider sub name role roles mode same) =
      subst (λ q. Kept payload (session_payload s q) → decoded payload ≡ ok q) (sym same)
        λ kept. decoded-provider payload sub name role roles mode kept

issue-cookie :
    (jose : Jose) (s : Sessions) (now : ℕ) (p : Principal) (c : Cookie)
    → issue jose s now p ≡ ok c
    → (cookie s s.cookie_name
          (seal jose s now (session_payload s p) "session" (seconds_of s))
          (seconds_of s)
        ≡ c)
      × (length (seal jose s now (session_payload s p) "session" (seconds_of s)) ≤ 4096)
unfolding issue
issue-cookie jose s now p c h = (ground (arith, h), ground (arith, h))

Kept-Opens :
    (jose : Jose) (s : Sessions) (now t seconds : ℕ) (payload : Fields)
    (opens : Opens jose s now t seconds (sealed s payload "session"))
    → Kept jose s opens.opened payload
unfolding includes
Kept-Opens jose s now t seconds payload opens = (
  opens.kept "sub" refl ∙ get-sealed s payload "session" "sub" refl refl,
  opens.kept "roles" refl ∙ get-sealed s payload "session" "roles" refl refl,
  opens.kept "display_name" refl ∙ get-sealed s payload "session" "display_name" refl refl,
)

session_principal-seal :
    (jose : Jose) (s : Sessions) (now t : ℕ) (p : Principal)
    → Opens jose s now t (seconds_of s) (sealed s (session_payload s p) "session")
    → all is_plain s.cookie_name ≡ true
    → IsKnown s p
    → length (seal jose s now (session_payload s p) "session" (seconds_of s)) ≤ 4096
    → t < now + seconds_of s
    → session_principal jose s t (
        some
          (s.cookie_name ++ b'=' ∷ seal jose s now (session_payload s p) "session" (seconds_of s)))
      ≡ ok p
unfolding session_principal seal
session_principal-seal jose s now t p opens named_well known bound in_time =
    rw
      (
        read_cookie-pair s.cookie_name
            (seal jose s now (session_payload s p) "session" (seconds_of s)) named_well opens.plain,
        open_token-seal jose s now t (seconds_of s) (session_payload s p) "session" opens in_time
            bound,
      )
      (decoded-known jose s opens.opened p known
        (Kept-Opens jose s now t (seconds_of s) (session_payload s p) opens))

-- The cookie that `issue` sets signs the same principal in until it expires: whether the
-- principal is of a configured account or of the identity provider, if jose opens what it sealed,
-- and if the cookie's name needs no quotes.
pub session_principal-issue :
    (jose : Jose) (s : Sessions) (now t : ℕ) (p : Principal) (c : Cookie)
    → Opens jose s now t (seconds_of s) (sealed s (session_payload s p) "session")
    → all is_plain s.cookie_name ≡ true
    → IsKnown s p
    → issue jose s now p ≡ ok c
    → t < now + c.max_age
    → session_principal jose s t (some (pair_of c)) ≡ ok p
session_principal-issue jose s now t p c opens named_well known issued in_time =
    let (same, bound) = issue-cookie jose s now p c issued in
    subst (λ c. t < now + c.max_age → session_principal jose s t (some (pair_of c)) ≡ ok p) same
      (session_principal-seal jose s now t p opens named_well known bound) in_time
