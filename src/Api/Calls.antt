-- ===== src/Api/Calls.antt =====
-- The state of `ObservationApi` in runtime/observation-api.ts, and calls on it: a call that throws
-- keeps what was written before.
use celery_insights.Common.{Option, List, Result, ok, err}
use celery_insights.Api.Cleanup.{Retention}
use celery_insights.Api.Backup.{Imported}

-- What is written to the database.
pub data Write : Type 0 where
  save_retention : Retention → Write
  clean_up clear : Write
  import_all : Imported → Write

-- `this.retention`, the saved settings, and the writes so far.
pub record Api : Type 0 where
  pub retention : Retention
  pub saved : Option Retention
  pub writes : List Write

abbrev pub Call : Type 0 → Type 0
Call A = Api → Result A × Api

module _ {A : Type 0} where
  abbrev pub pure : A → Call A
  pure a api = (ok a, api)

  abbrev pub lift : Result A → Call A
  lift result api = (result, api)

  abbrev pub gets : (Api → A) → Call A
  gets f api = (ok (f api), api)

abbrev pub modify : (Api → Api) → Call (Unit {0})
modify f api = (ok tt, f api)

abbrev pub then_call : {A B : Type 0} → Result A × Api → (A → Call B) → Result B × Api
then_call (ok a, api) next = next a api
then_call (err failure, api) next = (err failure, api)

infixl 5 ◌>>=◌ ◌>>◌
abbrev pub ◌>>=◌ : {A B : Type 0} → Call A → (A → Call B) → Call B
◌>>=◌ call next api = then_call (call api) next

abbrev pub ◌>>◌ : {B : Type 0} → Call (Unit {0}) → Call B → Call B
call >> next = call >>= λ _. next
