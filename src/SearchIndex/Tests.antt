-- ===== src/SearchIndex/Tests.antt =====
-- Two instances with different settings, and a walk over three records.
use celery_insights.Common.{◌≡◌, refl, true, false, some, none, List, [], ◌∷◌, all, any, filter}
use celery_insights.SearchIndex.{
  Database, Statement, starts, renews, marks, defines, execute, execute_all, take_lease, renew,
  set_ready, set_projections, walk,
}
use celery_insights.SearchIndex.Agreement.{Agrees, execute_all-Agrees}
use celery_insights.SearchIndex.Walk.{walk-all}

abbrev fresh : Database
fresh = record { leases = []; config = none; projections = false }

-- The second instance is refused while the first one's lease lasts.
abbrev rival : List Statement
rival = starts 10 "a" true ∷ defines true ∷ marks true ∷ starts 30 "b" false ∷ renews 40 "a" ∷ []

execute_all-Agrees_example : Agrees (execute_all rival fresh)
unfolding all
execute_all-Agrees_example = execute_all-Agrees rival fresh refl

rival_refused : execute_all rival fresh ≡ record {
  leases = record { instance_id = "a"; enabled = true; expires_at = 100 } ∷ [];
  config = some (record { enabled = true; ready = true });
  projections = true;
}
unfolding execute_all execute take_lease renew set_ready set_projections any filter
rival_refused = refl

-- An instance whose lease has lapsed during its backfill still marks the projections as ready,
-- after another one has removed them.
lapsed_ready :
    execute_all
      (starts 10 "a" true
        ∷ defines true
        ∷ starts 80 "b" false
        ∷ marks false
        ∷ defines false
        ∷ marks true
        ∷ [])
      fresh
    ≡ record {
      leases = record { instance_id = "b"; enabled = false; expires_at = 140 } ∷ [];
      config = some (record { enabled = false; ready = true });
      projections = false;
    }
unfolding execute_all execute take_lease renew set_ready set_projections any filter
lapsed_ready = refl

walk-all_example : walk 4 none (3 ∷ 5 ∷ 8 ∷ []) ≡ some (3 ∷ 5 ∷ 8 ∷ [])
unfolding all
walk-all_example = walk-all (3 ∷ 5 ∷ 8 ∷ []) refl
