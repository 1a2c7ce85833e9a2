-- ===== src/Configuration/Authentication/Usable.antt =====
-- What a configuration that `authenticationConfig` accepts gives the sign-in code.
use celery_insights.Common.{
  suc, ◌≤◌, ◌≡◌, refl, ◌∙◌, ap, sym, Bool, true, false, not, ◌&&◌, Option, some, none, List, [],
  ◌∷◌, String, map, includes, distinct, find, All, ◌==◌, ==_refl, Eq-String, nat_eq_iff, length,
  length-filter-le, filter-length-eq, is_some, Result, ok, err, after-ok, includes-distinct, arith,
  Bool-cases, inl, inr, subst, ◌⊎◌, includes-filter, throw_if, other_error,
}
use celery_insights.Security.Http.{Account, Mode, basic, oidc}
use celery_insights.Configuration.Authentication.{
  Url, Config, Provider, Snapshot, or_throw, is_empty, is_oidc, is_plain_https, drop_slash, url_of,
  has_duplicates, oidc_provider, no_provider, provider_of, authentication_config,
}

abbrev pub usernames : List Account → List String
usernames accounts = map (λ (account : Account). account.username) accounts

length-distinct-le : (xs : List String) → length (distinct xs) ≤ length xs
unfolding distinct
length-distinct-le [] = omega arith
length-distinct-le (x ∷ xs) =
    omega (arith, length-distinct-le xs, length-filter-le (λ y. not (x == y)) (distinct xs))

length-map : (accounts : List Account) → length (usernames accounts) ≡ length accounts
length-map [] = refl
length-map (a ∷ accounts) = ap suc (length-map accounts)

-- A list that is as long as its distinct values repeats none.
fresh_first :
    (x : String) (xs : List String)
    → length (distinct (x ∷ xs)) ≡ length (x ∷ xs)
    → (includes xs x ≡ false) × (length (distinct xs) ≡ length xs)
unfolding distinct
fresh_first x xs h =
    let rest = length-distinct-le xs in
    let fewer = length-filter-le (λ y. not (x == y)) (distinct xs) in
    let same : length (distinct xs) ≡ length xs = omega (arith, rest, fewer, h) in
    let whole =
      filter-length-eq (λ y. not (x == y)) (distinct xs) (omega (arith, rest, fewer, h)) in
    (
      sym (includes-distinct xs x)
          ∙ ap (λ ys. includes ys x) (sym whole)
          ∙ includes-filter (λ y. not (x == y)) (distinct xs) x
          ∙ ground (arith, ==_refl x),
      same,
    )

-- An account that its own name finds.
abbrev pub IsFound : List Account → Account → Type 0
IsFound accounts a = find (λ other. other.username == a.username) accounts ≡ some a

IsFound-cons :
    (b : Account) (accounts others : List Account)
    → includes (usernames others) b.username ≡ false
    → All (IsFound accounts) others
    → All (IsFound (b ∷ accounts)) others
unfolding find includes
IsFound-cons b accounts [] h all = tt
IsFound-cons b accounts (a ∷ others) h (first, all) = (
  elim (Bool-cases (b.username == a.username)) [
    | inl same ↦
        absurd (
          ground
            (arith, h, (Eq-String.equals_iff b.username a.username).0 same, ==_refl b.username))
    | inr apart ↦ ground (arith, apart, first)
  ],
  IsFound-cons b accounts others (ground (arith, h)) all,
)

All-IsFound :
    (accounts : List Account)
    → length (distinct (usernames accounts)) ≡ length (usernames accounts)
    → All (IsFound accounts) accounts
unfolding find
All-IsFound [] h = tt
All-IsFound (a ∷ accounts) h =
    let (fresh, rest) = fresh_first a.username (usernames accounts) h in
    (
      ground (arith, ==_refl a.username),
      IsFound-cons a accounts accounts fresh (All-IsFound accounts rest),
    )

or_throw-ok : (o : Option String) (s : String) → or_throw o ≡ ok s → (s == "") ≡ false
or_throw-ok none s h = cc
or_throw-ok (some t) s h = ground (arith, h)

url_of-ok :
    (parse_url : String → Option Url) (s : String) (url : Url)
    → url_of parse_url s ≡ ok url
    → parse_url s ≡ some url
url_of-ok parse_url s url h = from_option (parse_url s) refl h
  where
    from_option :
        (o : Option Url)
        → parse_url s ≡ o
        → elim o as (λ _. Result Url) [ none ↦ err other_error | some url ↦ ok url ] ≡ ok url
        → parse_url s ≡ some url
    from_option none same k = cc
    from_option (some other) same k = ground (arith, same, k)

distinct-usernames :
    (accounts : List Account)
    → has_duplicates accounts ≡ false
    → length (distinct (usernames accounts)) ≡ length (usernames accounts)
distinct-usernames accounts h =
    (nat_eq_iff (length (distinct (usernames accounts))) (length accounts)).0 (ground (arith, h))
    ∙ sym (length-map accounts)

is_empty-nil : {A : Type 0} (xs : List A) → is_empty xs ≡ true → xs ≡ []
is_empty-nil [] h = refl
is_empty-nil (x ∷ xs) h = cc

throw_if-ok : (b : Bool) (u : Unit {0}) → throw_if b other_error ≡ ok u → b ≡ false
throw_if-ok true u h = cc
throw_if-ok false u h = refl

module _ {R : Type 0} (parse_url : String → Option Url) (words : String → List String) where
  -- What the sign-in code relies on: an HTTPS URL whose origin and path are the configured ones, a
  -- session secret, accounts that their names find, and the accounts or the provider of the mode.
  pub record IsUsable (config : Config R) (s : Snapshot R) : Type 0 where
    pub url : Url
    pub parsed : parse_url s.public_url ≡ some url
    pub https : is_plain_https url ≡ true
    pub origin : s.public_origin ≡ url.origin
    pub path : (drop_slash url.pathname == config.url_prefix) ≡ true
    pub secret : (s.session_secret == "") ≡ false
    pub found : All (IsFound s.accounts) s.accounts
    pub of_mode :
        ((s.mode ≡ oidc) × (s.accounts ≡ []) × (is_some s.provider ≡ true))
        ⊎ ((s.mode ≡ basic) × (is_empty s.accounts ≡ false) × (s.provider ≡ none))

  oidc_provider-is_some :
      (config : Config R) (provider : Option (Provider R))
      → oidc_provider parse_url words config ≡ ok provider
      → (config.accounts ≡ []) × (is_some provider ≡ true)
  unfolding oidc_provider
  oidc_provider-is_some config provider h =
      let (u, none_kept, h1) = after-ok (throw_if (not (is_empty config.accounts)) other_error) h in
      let (issuer, _, h2) = after-ok (or_throw config.issuer) h1 in
      let (client_id, _, h3) = after-ok (or_throw config.client_id) h2 in
      let (_, _, h4) = after-ok (throw_if (is_empty config.role_mappings) other_error) h3 in
      let (url, _, h5) = after-ok (url_of parse_url issuer) h4 in
      let (_, _, h6) = after-ok (throw_if (not (is_plain_https url)) other_error) h5 in
      let (_, _, h7) =
        after-ok (throw_if (not (includes (words config.scopes) "openid")) other_error) h6 in
      let none_left = throw_if-ok (not (is_empty config.accounts)) u none_kept in
      (is_empty-nil config.accounts (ground (arith, none_left)), ground (arith, h7))

  no_provider-none :
      (config : Config R) (provider : Option (Provider R))
      → no_provider parse_url words config ≡ ok provider
      → provider ≡ none
  unfolding no_provider
  no_provider-none config provider h = ground (arith, h)

  provider_of-mode :
      (config : Config R) (mode : Mode) (provider : Option (Provider R))
      → config.mode ≡ mode
      → (not (is_oidc config.mode) && is_empty config.accounts) ≡ false
      → provider_of parse_url words config ≡ ok provider
      → ((config.mode ≡ oidc) × (config.accounts ≡ []) × (is_some provider ≡ true))
        ⊎ ((config.mode ≡ basic) × (is_empty config.accounts ≡ false) × (provider ≡ none))
  unfolding provider_of
  provider_of-mode config oidc provider m h k =
      let (none_kept, given) = oidc_provider-is_some config provider (ground (arith, m, k)) in
      inl (m, none_kept, given)
  provider_of-mode config basic provider m h k =
      inr (m, ground (arith, m, h), no_provider-none config provider (ground (arith, m, k)))

  -- A configuration that is accepted is usable: its public URL is plain HTTPS with the configured
  -- path, its session secret is not empty, each account is the one its username finds, and either
  -- the mode is OIDC with a provider and no accounts, or it is basic with accounts and no provider.
  pub authentication_config-IsUsable :
      (config : Config R) (s : Snapshot R)
      → authentication_config parse_url words config ≡ ok s
      → IsUsable config s
  unfolding authentication_config
  authentication_config-IsUsable config s h =
      let (public_url, _, h1) = after-ok (or_throw config.public_url) h in
      let (url, parsed, h2) = after-ok (url_of parse_url public_url) h1 in
      let (u_https, https, h3) = after-ok (throw_if (not (is_plain_https url)) other_error) h2 in
      let (u_path, path, h4) =
        after-ok (throw_if (not (drop_slash url.pathname == config.url_prefix)) other_error) h3 in
      let (u_listed, listed, h5) =
        after-ok (throw_if (not (is_oidc config.mode) && is_empty config.accounts) other_error)
          h4 in
      let (u_unrepeated, unrepeated, h6) =
        after-ok (throw_if (has_duplicates config.accounts) other_error) h5 in
      let (session_secret, secret, h7) = after-ok (or_throw config.session_secret) h6 in
      let (provider, given, h8) = after-ok (provider_of parse_url words config) h7 in
      let eq : record {
        public_origin = url.origin;
        public_url = public_url;
        mode = config.mode;
        accounts = config.accounts;
        session_secret = session_secret;
        session_seconds = config.session_seconds;
        provider = provider;
      }
          ≡ s =
        ground (arith, h8) in
      subst (IsUsable config) eq (record {
        url = url;
        parsed = url_of-ok parse_url public_url url parsed;
        https = ground (arith, throw_if-ok (not (is_plain_https url)) u_https https);
        origin = refl;
        path =
            ground
              (arith, throw_if-ok (not (drop_slash url.pathname == config.url_prefix)) u_path path);
        secret = or_throw-ok config.session_secret session_secret secret;
        found = All-IsFound config.accounts (
            distinct-usernames config.accounts
              (throw_if-ok (has_duplicates config.accounts) u_unrepeated unrepeated));
        of_mode =
            provider_of-mode config config.mode provider refl
              (throw_if-ok (not (is_oidc config.mode) && is_empty config.accounts) u_listed listed)
              given;
      })
