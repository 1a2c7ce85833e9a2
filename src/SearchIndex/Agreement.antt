-- ===== src/SearchIndex/Agreement.antt =====
-- The setting that the instances share.
use celery_insights.Common.{
  ℕ, ◌≡◌, refl, ◌∙◌, Bool, true, false, not, ◌&&◌, Option, some, none, List, [], ◌∷◌, String, map,
  filter, any, all, all-filter, ltb, ◌==◌, Eq-String, arith, Bool-cases, inl, inr,
}
use celery_insights.SearchIndex.{
  Lease, Config, Database, same_bool, conflicts, take_lease, renewed, renew, with_ready, set_ready,
  set_projections, release, Statement, starts, renews, marks, defines, stops, or_unchanged, execute,
  execute_all,
}
use mathlib.Core.Option

-- Every lease has the setting of the configuration.
abbrev pub agrees : Option Config → Lease → Bool
agrees none lease = false
agrees (some config) lease = same_bool lease.enabled config.enabled

abbrev pub Agrees : Database → Type 0
Agrees db = all (agrees db.config) db.leases ≡ true

all-any :
    (now : ℕ) (enabled : Bool) (id : String) (leases : List Lease)
    → any (conflicts now enabled) leases ≡ false
    → all
        (λ (l : Lease). same_bool l.enabled enabled)
        (filter (λ (l : Lease). ltb now l.expires_at && not (l.instance_id == id)) leases)
      ≡ true
unfolding any all filter
all-any now enabled id [] h = refl
all-any now enabled id (l ∷ leases) h = ground (arith, h, all-any now enabled id leases)

same_bool_refl : (b : Bool) → same_bool b b ≡ true
same_bool_refl true = refl
same_bool_refl false = refl

Agrees-take_lease :
    (now : ℕ) (id : String) (enabled : Bool) (db : Database)
    → Agrees db
    → Agrees (or_unchanged db (take_lease now id enabled db))
unfolding take_lease all
Agrees-take_lease now id enabled db h = elim (Bool-cases (any (conflicts now enabled) db.leases)) [
  | inl refused ↦ ground (arith, refused, h)
  | inr free ↦ ground (arith, free, same_bool_refl enabled, all-any now enabled id db.leases free)
]

all-renewed :
    (now : ℕ) (id : String) (config : Option Config) (leases : List Lease)
    → all (agrees config) (map (renewed now id) leases) ≡ all (agrees config) leases
unfolding all
all-renewed now id config [] = refl
all-renewed now id none (l ∷ leases) = refl
all-renewed now id (some config) (l ∷ leases) =
    ground (arith, all-renewed now id (some config) leases)

Agrees-set_ready : (ready : Bool) (db : Database) → Agrees db → Agrees (set_ready ready db)
unfolding set_ready
Agrees-set_ready ready db h = same_config db.config db.leases h
  where
    same_config :
        (config : Option Config) (leases : List Lease)
        → all (agrees config) leases ≡ true
        → all (agrees (Option.map (with_ready ready) config)) leases ≡ true
    same_config none leases h = h
    same_config (some config) leases h = h

Agrees-execute : (s : Statement) (db : Database) → Agrees db → Agrees (execute s db)
unfolding execute renew set_projections release
Agrees-execute (starts now id enabled) db h = Agrees-take_lease now id enabled db h
Agrees-execute (renews now id) db h = all-renewed now id db.config db.leases ∙ h
Agrees-execute (marks ready) db h = Agrees-set_ready ready db h
Agrees-execute (defines present) db h = h
Agrees-execute (stops id) db h =
    all-filter (agrees db.config) (λ (l : Lease). not (l.instance_id == id)) db.leases h

-- Whatever statements the instances run, in whatever order and at whatever times: when every lease
-- has the setting of the configuration, it still does, so two instances with conflicting settings
-- never hold leases together.
pub execute_all-Agrees :
    (statements : List Statement) (db : Database) → Agrees db → Agrees (execute_all statements db)
unfolding execute_all
execute_all-Agrees [] db h = h
execute_all-Agrees (s ∷ statements) db h =
    execute_all-Agrees statements (execute s db) (Agrees-execute s db h)
