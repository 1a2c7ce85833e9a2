-- ===== src/Security/Sessions/Callback/Admission.antt =====
-- Who is signed in by a callback of the identity provider.
use celery_insights.Common.{
  ℕ, ◌≡◌, refl, ◌∙◌, ap, Bool, false, ◌&&◌, Option, some, none, List, [], ◌∷◌, String, any, ◌==◌,
  ◌≤◌, subst, flat_map, includes, includes-append, includes-distinct, Result, ok, err, after-ok,
  arith, Eq-String,
}
use celery_insights.Common.Json.{Fields, get, utf16_length}
use celery_insights.Common.Text.{◌<>◌}
use celery_insights.Security.Permissions.{Role, Principal}
use celery_insights.Security.Http.{or_throw}
use celery_insights.Security.Sessions.{
  Sessions, Cookie, Jose, RoleMapping, read_cookie, text_of, open_token, issue,
}
use celery_insights.Security.Sessions.Redirect.{Url}
use celery_insights.Security.Sessions.Callback.{
  Provider, Landing, Eq-Role, matches, mapped, mapped_roles, is_empty, sign_in_failed, unauthorized,
  display_name, claimed_subject, admitted, exchange, sign_in, cleared, land, callback,
}

-- A mapping that the claims meet gives the role.
abbrev pub gives : Fields → Role → RoleMapping → Bool
gives claims role mapping =
    matches mapping (get mapping.claim claims) && includes mapping.roles role

includes-mapped :
    (claims : Fields) (mapping : RoleMapping) (role : Role)
    → includes (mapped claims mapping) role ≡ gives claims role mapping
unfolding includes
includes-mapped claims mapping role = ground arith

includes-flat_map :
    (claims : Fields) (mappings : List RoleMapping) (role : Role)
    → includes (flat_map (mapped claims) mappings) role ≡ any (gives claims role) mappings
unfolding includes flat_map any
includes-flat_map claims [] role = refl
includes-flat_map claims (mapping ∷ mappings) role =
    includes-append (mapped claims mapping) (flat_map (mapped claims) mappings) role
    ∙ cc (includes-mapped claims mapping role, includes-flat_map claims mappings role)

includes-mapped_roles :
    (s : Sessions) (claims : Fields) (role : Role)
    → includes (mapped_roles s claims) role ≡ any (gives claims role) s.role_mappings
unfolding mapped_roles
includes-mapped_roles s claims role =
    includes-distinct (flat_map (mapped claims) s.role_mappings) role
    ∙ includes-flat_map claims s.role_mappings role

module _ (jose : Jose) (parse : List ℕ → Option Url) (s : Sessions) (provider : Provider) where
  -- What stands behind a session that a callback gives.
  pub record IsSignedIn (now : ℕ) (header : Option (List ℕ)) (search : List ℕ) (landing : Landing)
      : Type 0 where
    pub transaction : Fields
    pub claims : Fields
    pub principal : Principal
    pub session : Cookie
    pub verifier : String
    pub state : String
    pub nonce : String
    pub opened :
        open_token jose s now (read_cookie header s.transaction_name) "oidc" ≡ ok transaction
    pub has_verifier : text_of (get "verifier" transaction) ≡ some verifier
    pub has_state : text_of (get "state" transaction) ≡ some state
    pub has_nonce : text_of (get "nonce" transaction) ≡ some nonce
    pub granted : provider.grant search verifier state nonce ≡ ok (some claims)
    pub subject : String
    pub named : text_of (get "sub" claims) ≡ some subject
    pub not_empty : (subject == "") ≡ false
    pub within_bound : utf16_length subject ≤ 512
    pub account : principal.account_id ≡ "oidc:" <> subject
    pub shown_name : principal.display_name ≡ some (display_name jose parse s provider claims)
    pub some_role : is_empty principal.roles ≡ false
    pub roles_given :
        (role : Role) → includes principal.roles role ≡ any (gives claims role) s.role_mappings
    pub issued : issue jose s now principal ≡ ok session
    pub shown : landing.cookies ≡ cleared jose parse s provider ∷ session ∷ []

  or_throw-some : {A : Type 0} (o : Option A) {a : A} → or_throw o unauthorized ≡ ok a → o ≡ some a
  or_throw-some none h = cc
  or_throw-some (some b) h = ground arith

  or_throw-ok : {A : Type 0} (o : Option A) {a : A} → or_throw o sign_in_failed ≡ ok a → o ≡ some a
  or_throw-ok none h = cc
  or_throw-ok (some b) h = ground arith

  exchange-ok :
      (search : List ℕ) (transaction : Fields) (claims : Option Fields)
      → exchange jose parse s provider search transaction ≡ ok claims
      → (verifier state nonce : String) × (text_of (get "verifier" transaction) ≡ some verifier)
        × (text_of (get "state" transaction) ≡ some state)
        × (text_of (get "nonce" transaction) ≡ some nonce)
        × (provider.grant search verifier state nonce ≡ ok claims)
  unfolding exchange
  exchange-ok search transaction claims h =
      let (verifier, v, h1) =
        after-ok (or_throw (text_of (get "verifier" transaction)) sign_in_failed) h in
      let (state, t, h2) =
        after-ok (or_throw (text_of (get "state" transaction)) sign_in_failed) h1 in
      let (nonce, n, h3) =
        after-ok (or_throw (text_of (get "nonce" transaction)) sign_in_failed) h2 in
      let (tt', d, h4) = after-ok provider.discovered h3 in
      (
        verifier,
        state,
        nonce,
        or_throw-ok (text_of (get "verifier" transaction)) v,
        or_throw-ok (text_of (get "state" transaction)) t,
        or_throw-ok (text_of (get "nonce" transaction)) n,
        h4,
      )

  -- The text of `sub`, when the claims are fit for an account.
  claimed_subject-ok :
      (claims : Fields) (sub : String)
      → claimed_subject jose parse s provider (some claims) ≡ ok sub
      → (text_of (get "sub" claims) ≡ some sub) × ((sub == "") ≡ false) × (utf16_length sub ≤ 512)
  unfolding claimed_subject
  claimed_subject-ok claims sub h =
      let (text, read, h1) = after-ok (or_throw (text_of (get "sub" claims)) unauthorized) h in
      let named = or_throw-some (text_of (get "sub" claims)) read in
      let same : text ≡ sub = ground (arith, h1) in
      subst
        (λ sub.
          (text_of (get "sub" claims) ≡ some sub)
          × ((sub == "") ≡ false)
          × (utf16_length sub ≤ 512))
        same (named, ground (arith, h1), ground (arith, h1))

  admitted-none : (p : Principal) → admitted jose parse s provider none ≡ ok p → ⊥
  unfolding admitted claimed_subject
  admitted-none p h = cc

  admitted-ok :
      (claims : Option Fields) (p : Principal)
      → admitted jose parse s provider claims ≡ ok p
      → (known : Fields) × (claims ≡ some known)
        × (p.roles ≡ mapped_roles s known)
        × (is_empty p.roles ≡ false)
        × (p.display_name ≡ some (display_name jose parse s provider known))
        × (sub : String) × (text_of (get "sub" known) ≡ some sub)
        × ((sub == "") ≡ false)
        × (utf16_length sub ≤ 512)
        × (p.account_id ≡ "oidc:" <> sub)
  unfolding admitted
  admitted-ok none p h = absurd (admitted-none p h)
  admitted-ok (some claims) p h =
      let (sub, known, h1) = after-ok (claimed_subject jose parse s provider (some claims)) h in
      let (named, filled, short) = claimed_subject-ok claims sub known in
      (
        claims,
        refl,
        ground (arith, h1),
        ground (arith, h1),
        ground (arith, h1),
        sub,
        named,
        filled,
        short,
        ground (arith, h1),
      )

  sign_in-ok :
      (now : ℕ) (header : Option (List ℕ)) (search : List ℕ) (session : Cookie) (to : List ℕ)
      (landing : Landing)
      → sign_in jose parse s provider now header search ≡ ok (session, to)
      → landing.cookies ≡ cleared jose parse s provider ∷ session ∷ []
      → IsSignedIn now header search landing
  unfolding sign_in
  sign_in-ok now header search session to landing h shown =
      let (transaction, opened, h1) =
        after-ok (open_token jose s now (read_cookie header s.transaction_name) "oidc") h in
      let (claims, exchanged, h2) =
        after-ok (exchange jose parse s provider search transaction) h1 in
      let (principal, known, h3) = after-ok (admitted jose parse s provider claims) h2 in
      let (cookie, issued, h4) = after-ok (issue jose s now principal) h3 in
      let (verifier, state, nonce, v, t, n, granted) =
        exchange-ok search transaction claims exchanged in
      let (found, same, roles, some_role, shown_name, subject, named, filled, short, account) =
        admitted-ok claims principal known in
      record {
        transaction = transaction;
        claims = found;
        principal = principal;
        session = session;
        verifier = verifier;
        state = state;
        nonce = nonce;
        opened = opened;
        has_verifier = v;
        has_state = t;
        has_nonce = n;
        granted = granted ∙ ap ok same;
        subject = subject;
        named = named;
        not_empty = filled;
        within_bound = short;
        account = account;
        shown_name = shown_name;
        some_role = some_role;
        roles_given =
            λ role. ap (λ roles. includes roles role) roles ∙ includes-mapped_roles s found role;
        issued = issued ∙ ground (arith, h4);
        shown = shown;
      }

  land-cookies :
      (r : Result (Cookie × List ℕ))
      → (land jose parse s provider r).status ≡ 200
      → (session : Cookie) × (to : List ℕ) × (r ≡ ok (session, to))
        × ((land jose parse s provider r).cookies ≡ cleared jose parse s provider ∷ session ∷ [])
  unfolding land
  land-cookies (ok (session, to)) h = (session, to, refl, refl)
  land-cookies (err failure) h = ground arith

  -- A callback of the identity provider signs in (answers with status 200) only with the session
  -- of a principal that the provider vouched for: the browser held this installation's unexpired
  -- transaction, the exchange succeeded for its verifier, state and nonce, and the principal has
  -- the account "oidc:" followed by the subject of the claims that the exchange gave, a text that
  -- is not empty and has at most 512 UTF-16 units, the display name of those claims, and at least
  -- one role and exactly the roles of the mappings that they meet.
  pub callback-IsSignedIn :
      (now : ℕ) (header : Option (List ℕ)) (search : List ℕ)
      → (callback jose parse s provider now header search).status ≡ 200
      → IsSignedIn now header search (callback jose parse s provider now header search)
  unfolding callback
  callback-IsSignedIn now header search h =
      let (session, to, signed, shown) =
        land-cookies (sign_in jose parse s provider now header search) h in
      sign_in-ok now header search session to (callback jose parse s provider now header search)
        signed shown
