-- ===== src/Security/Sessions/Redirect.antt =====
-- `returnPath`: where a sign-in leads. The URL parser, at the public origin, is a parameter; it
-- gives the origin, and the path and the query as they are written.
use celery_insights.Common.{
  ℕ, ◌≡◌, Bool, true, false, not, ◌&&◌, Option, some, none, List, [], ◌∷◌, ◌++◌, String,
  if◌then◌else◌, is_some, nat_eq, ◌==◌, Eq-String, Eq-List, Eq-ℕ, arith, inl, inr, Option-cases,
}
use celery_insights.Common.Text.{codes, strip}
use celery_insights.Security.Sessions.{Sessions}

pub record Url : Type 0 where
  pub origin : String
  pub pathname : List ℕ
  pub search : List ℕ

abbrev pub home : Sessions → List ℕ
home s = s.prefix ++ b'/' ∷ []

abbrev pub is_destination : Sessions → Url → Bool
is_destination s url =
    url.origin == s.config.public_origin
    && is_some (strip (home s) url.pathname)
    && not (is_some (strip (s.prefix ++ codes "/api/auth/") url.pathname))
    && not (url.pathname == s.prefix ++ codes "/login")

abbrev pub path_of : Sessions → Option Url → List ℕ
path_of s none = home s
path_of s (some url) = if is_destination s url then url.pathname ++ url.search else home s

-- `returnPath`, where the parser gives none for an invalid URL.
unfoldable pub return_path : (List ℕ → Option Url) → Sessions → Option (List ℕ) → List ℕ
return_path parse s none = path_of s (parse (home s))
return_path parse s (some value) = path_of s (parse value)

-- A reference that a browser resolves within its origin: it starts with one slash, and neither
-- another one nor a backslash follows.
abbrev pub is_local : List ℕ → Bool
is_local [] = false
is_local (c ∷ []) = nat_eq c b'/'
is_local (c ∷ d ∷ cs) = nat_eq c b'/' && not (nat_eq d b'/') && not (nat_eq d 92)

-- A prefix as the configuration has it: a slash and a name.
abbrev pub is_prefix : List ℕ → Bool
is_prefix [] = false
is_prefix (c ∷ []) = false
is_prefix (c ∷ d ∷ cs) = is_local (c ∷ d ∷ cs)

-- A text that starts with a prefix is local.
strip-local :
    (prefix after text more rest : List ℕ)
    → is_prefix prefix ≡ true
    → strip (prefix ++ after) text ≡ some rest
    → is_local (text ++ more) ≡ true
unfolding strip
strip-local [] after text more rest h k = cc
strip-local (c ∷ []) after text more rest h k = cc
strip-local (c ∷ d ∷ cs) after [] more rest h k = cc
strip-local (c ∷ d ∷ cs) after (x ∷ []) more rest h k = ground arith
strip-local (c ∷ d ∷ cs) after (x ∷ y ∷ text) more rest h k = ground arith

home-local : (prefix : List ℕ) → is_prefix prefix ≡ true → is_local (prefix ++ b'/' ∷ []) ≡ true
home-local [] h = cc
home-local (c ∷ []) h = cc
home-local (c ∷ d ∷ cs) h = h

path_of-local :
    (s : Sessions) (url : Option Url) → is_prefix s.prefix ≡ true → is_local (path_of s url) ≡ true
path_of-local s none h = home-local s.prefix h
path_of-local s (some url) h = elim (Option-cases (strip (home s) url.pathname)) [
  | inl outside ↦ ground (arith, outside, home-local s.prefix h)
  | inr (rest, inside) ↦ ground (
    arith,
    home-local s.prefix h,
    strip-local s.prefix (b'/' ∷ []) url.pathname url.search rest h inside,
  )
]

-- Where the application has a path prefix, a sign-in leads to a page of the application's own
-- origin, whatever destination the request asks for and whatever the parser makes of it.
pub return_path-local :
    (parse : List ℕ → Option Url) (s : Sessions) (value : Option (List ℕ))
    → is_prefix s.prefix ≡ true
    → is_local (return_path parse s value) ≡ true
unfolding return_path
return_path-local parse s none h = path_of-local s (parse (home s)) h
return_path-local parse s (some value) h = path_of-local s (parse value) h
