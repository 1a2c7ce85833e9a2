-- ===== src/Security/Entry/Laws.antt =====
-- What reaches the application's handler, and what is cached.
use celery_insights.Common.{
  ℕ, ◌≡◌, refl, sym, subst, ◌⊎◌, inl, inr, Bool, true, false, not, ◌||◌, Option, some, none, List,
  [], ◌∷◌, String, if◌then◌else◌, arith, lookup, ◌==◌, Eq-String, Result-cases, Result, ok, err,
  Failure,
}
use text.Mathlib.TextEquality.{eq_iff}
use celery_insights.Security.Permissions.{Principal}
use celery_insights.Security.ReadScope.{ReadScope}
use celery_insights.Security.Http.{Request}
use celery_insights.Security.Entry.{
  Response, Authentication, set_header, no_store, auth_failure, access_page, is_foreign, normalize,
  is_public, is_api, foreign_origin, http_context, identity_response, login_redirect, target,
  seen_status, decide, admit, recover, recover_page, or_dispatch, caught, secure,
}

-- A request of this application that is not public.
abbrev pub is_protected : String → Request → Bool
is_protected prefix request =
    not (is_foreign prefix request.pathname || is_public (normalize prefix request.pathname))

-- The facts that let a request go on: the principal, the origin and the decision.
pub record Admitted (auth : Authentication) (request : Request) (path : String) (replay : Bool)
    : Type 0 where
  pub principal : Principal
  pub signed_in : auth.authenticate request ≡ ok principal
  pub same_origin : foreign_origin auth request ≡ false
  pub decision :
      ((g : Principal × ReadScope) × (auth.gate principal request path replay ≡ ok g))
      ⊎ ((is_api path ≡ false)
          × ((s : ReadScope) × (auth.check principal [] (http_context request path) replay ≡ ok s)))

or_dispatch-own :
    (own : Response) (dispatch : Result (Option Response))
    → or_dispatch (some own) dispatch ≡ ok (some own)
unfolding or_dispatch
or_dispatch-own own dispatch = refl

-- The `Cache-Control` header forbids storing the response.
abbrev pub IsNotStored : Response → Type 0
IsNotStored response = lookup "Cache-Control" response.headers ≡ some "no-store"

lookup-set_header :
    (name value other : String) (headers : List (String × String))
    → lookup other (set_header name value headers)
      ≡ (if name == other then some value else lookup other headers)
unfolding lookup set_header
lookup-set_header name value other [] = refl
lookup-set_header name value other ((n, v) ∷ headers) = ground (
  arith,
  eq_iff n name,
  eq_iff n other,
  eq_iff name other,
  lookup-set_header name value other headers,
)

no_store-IsNotStored : (response : Response) → IsNotStored (no_store response)
unfolding no_store
no_store-IsNotStored response =
    let kept = set_header "Cache-Control" "no-store" response.headers in
    ground (
      arith,
      lookup-set_header "Cache-Control" "no-store" "Cache-Control" response.headers,
      lookup-set_header "Content-Security-Policy" "frame-ancestors 'none'" "Cache-Control" kept,
    )

IsNotStored-eq : (x y : Response) → x ≡ y → IsNotStored x → IsNotStored y
IsNotStored-eq x y e h = subst IsNotStored e h

auth_failure-IsNotStored : (f : Failure) → IsNotStored (auth_failure f)
unfolding auth_failure
auth_failure-IsNotStored f = no_store-IsNotStored _

recover_page-IsNotStored :
    (prefix : String) (auth : Option Authentication) (path : String) (status : ℕ) (f : Failure)
    → IsNotStored (recover_page prefix auth path status f)
unfolding recover_page access_page lookup
recover_page-IsNotStored prefix none path status f = auth_failure-IsNotStored f
recover_page-IsNotStored prefix (some a) path status f = refl

login_redirect-IsNotStored :
    (encode : String → String) (prefix : String) (request : Request)
    → IsNotStored (login_redirect encode prefix request)
unfolding login_redirect
login_redirect-IsNotStored encode prefix request = no_store-IsNotStored _

recover-cases :
    (encode : String → String) (prefix : String) (auth : Option Authentication) (request : Request)
    (path : String) (f : Failure)
    → (recover encode prefix auth request path f ≡ login_redirect encode prefix request)
      ⊎ ((recover encode prefix auth request path f
            ≡ recover_page prefix auth (target request) (seen_status f) f)
          ⊎ (recover encode prefix auth request path f ≡ auth_failure f))
unfolding recover
recover-cases encode prefix auth request path f = ground arith

recover-IsNotStored :
    (encode : String → String) (prefix : String) (auth : Option Authentication) (request : Request)
    (path : String) (f : Failure)
    → IsNotStored (recover encode prefix auth request path f)
recover-IsNotStored encode prefix auth request path f =
    elim (recover-cases encode prefix auth request path f) [
      | inl e ↦ subst IsNotStored (sym e) (login_redirect-IsNotStored encode prefix request)
      | inr (inl e) ↦
          subst IsNotStored (sym e)
            (recover_page-IsNotStored prefix auth (target request) (seen_status f) f)
      | inr (inr e) ↦ subst IsNotStored (sym e) (auth_failure-IsNotStored f)
    ]

decide-IsNotStored :
    (auth : Authentication) (p : Principal) (request : Request) (path : String) (replay : Bool)
    (own : Response)
    → decide auth p request path replay ≡ ok (some own)
    → IsNotStored own
unfolding decide
decide-IsNotStored auth p request path replay own h =
    IsNotStored-eq (no_store (identity_response p)) own (ground arith) (no_store-IsNotStored _)

admit-IsNotStored :
    (auth : Option Authentication) (request : Request) (path : String) (replay : Bool)
    (own : Response)
    → admit auth request path replay ≡ ok (some own)
    → IsNotStored own
unfolding admit
admit-IsNotStored none request path replay own h = cc
admit-IsNotStored (some a) request path replay own h = elim (Result-cases (a.handle request path)) [
  | inl (some given, e) ↦
      IsNotStored-eq (no_store given) own (ground arith) (no_store-IsNotStored given)
  | inl (none, e) ↦ elim (Result-cases (a.authenticate request)) [
    | inl (p, e') ↦ decide-IsNotStored a p request path replay own (ground arith)
    | inr (f, e') ↦ absurd (ground arith)
  ]
  | inr (f, e) ↦ absurd (ground arith)
]

caught-dispatch :
    (handler : Failure → Response) (dispatch : Result (Option Response)) (r : Response)
    → ((f : Failure) → IsNotStored (handler f))
    → caught handler (or_dispatch none dispatch) ≡ ok (some r)
    → IsNotStored r
unfolding caught or_dispatch
caught-dispatch handler (ok (some answer)) r safe h =
    IsNotStored-eq (no_store answer) r (ground arith) (no_store-IsNotStored answer)
caught-dispatch handler (ok none) r safe h = absurd (ground arith)
caught-dispatch handler (err f) r safe h = IsNotStored-eq (handler f) r (ground arith) (safe f)

-- Every response to a protected request forbids storing it: those of the entry, of the
-- application and of every failure.
pub secure-IsNotStored :
    (encode : String → String) (request : Request) (prefix : String) (auth : Option Authentication)
    (replay : Bool) (dispatch : Result (Option Response)) (r : Response)
    → is_protected prefix request ≡ true
    → secure encode request prefix auth replay dispatch ≡ ok (some r)
    → lookup "Cache-Control" r.headers ≡ some "no-store"
unfolding secure caught
secure-IsNotStored encode request prefix auth replay dispatch r guarded h =
    let path = normalize prefix request.pathname in
    let handler = recover encode prefix auth request path in
    let safe = recover-IsNotStored encode prefix auth request path in
    elim (Result-cases (admit auth request path replay)) [
      | inr (f, e) ↦ IsNotStored-eq (handler f) r (ground arith) (safe f)
      | inl (some own, e) ↦
          IsNotStored-eq own r (ground (arith, or_dispatch-own own dispatch))
            (admit-IsNotStored auth request path replay own e)
      | inl (none, e) ↦ caught-dispatch handler dispatch r safe (ground arith)
    ]
