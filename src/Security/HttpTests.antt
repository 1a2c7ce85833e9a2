-- ===== src/Security/HttpTests.antt =====
-- Runs of the gate and of the request entry, and their theorems at concrete requests.
use celery_insights.Common.{
  ℕ, ◌≡◌, refl, Bool, false, Option, some, none, List, [], ◌∷◌, String, any, find, lookup, includes,
  take, replicate, list_eq, Eq-String, Result, ok, err, http_error,
}
use celery_insights.Common.Json.{Json}
use celery_insights.Common.Text.{codes}
use celery_insights.Security.Permissions.{Permission, viewer, Principal}
use celery_insights.Security.Permissions.Routes.{is_administrator}
use celery_insights.Security.ReadScope.{ReadScope, empty_scope}
use celery_insights.Security.Policy.{PolicyContext, PolicyInput, Reply, unreachable, check}
use celery_insights.Security.Http.{
  Request, Snapshot, Account, basic, verify, find_account, fill_buffer, account_principal,
  check_origin, route_actions, gate, is_websocket,
}
use celery_insights.Security.Http.Gate.{gate_below_administrator}
use celery_insights.Security.Entry.{Response, Authentication, content}

abbrev ann : Account
ann = record { username = "ann"; password = "pw"; roles = viewer ∷ [] }

abbrev site : Snapshot
site = record {
  mode = some basic;
  public_origin = "https://x";
  sessions = false;
  accounts = ann ∷ [];
}

abbrev reader : Principal
reader = account_principal ann

abbrev bytes : List ℕ → List ℕ
bytes text = text

verify_runs :
    (verify bytes site (codes "ann") (codes "pw") ≡ ok reader)
    × (verify bytes site (codes "ann") (codes "p") ≡ err (http_error 401 "Authentication required"))
unfolding verify find_account find list_eq fill_buffer take replicate
verify_runs = (refl, refl)

abbrev no_headers : String → Option String
no_headers name = none

abbrev get_config : Request
get_config = record { method = "GET"; pathname = "/api/config"; search = ""; header = no_headers }

abbrev decide_all : Principal → List Permission → PolicyContext → Bool → Result ReadScope
decide_all p actions context replay = ok empty_scope

gate_runs : gate decide_all site reader get_config "/api/config" false ≡ ok (reader, empty_scope)
unfolding gate check_origin is_websocket route_actions lookup includes
gate_runs = refl

abbrev clear_request : Request
clear_request = record {
  method = "POST";
  pathname = "/api/settings/clear";
  search = "";
  header = no_headers;
}

abbrev no_server : PolicyInput → Reply
no_server input = unreachable

abbrev parse : List ℕ → Option Json
parse text = none

gate_below_administrator_example : ¬ (
    gate (check no_server parse none) site reader clear_request "/api/settings/clear" false
    ≡ ok (reader, empty_scope))
unfolding any is_administrator includes
gate_below_administrator_example =
    gate_below_administrator no_server parse none site reader clear_request "/api/settings/clear"
      false (reader, empty_scope) refl refl refl

abbrev open_auth : Authentication
open_auth = record {
  origin = "https://x";
  handle = λ request path. ok none;
  authenticate = λ request. ok reader;
  check = decide_all;
  gate = λ p request path replay. ok (p, empty_scope);
}

abbrev encode : String → String
encode text = text

abbrev page : Response
page = record { status = 200; headers = []; body = content "config" }
