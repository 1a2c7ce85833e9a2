-- ===== src/Configuration/Database/Placed.antt =====
-- The database of a canonical configuration that is accepted.
use celery_insights.Common.{
  ◌≡◌, ◌≢◌, ◌⊎◌, inl, inr, Bool-cases, ◌==◌, Eq-String, refl, subst, Bool, true, false, not, ◌&&◌,
  Option, some, none, is_some, String, ok, arith,
}
use celery_insights.Common.Text.{◌<>◌}
use celery_insights.Configuration.Values.{Value, text}
use celery_insights.Configuration.Database.{
  Values, Mode, embedded, external, is_mode, is_truthy, or_else, text_value, is_external, port_of,
  place, canonical_values,
}

module _ (port_text : Value → String) (mode : Option Mode) (legacy : Option String)
    (options : Bool) where
  pub record IsPlaced (v w : Values) : Type 0 where
    pub own : (u : Value) → v.url ≡ some u → (w.url ≡ some u) × (w.external_url ≡ some u)
    pub named :
        (s : String)
        → v.url ≡ none
        → legacy ≡ some s
        → s ≢ ""
        → (w.url ≡ none) × (w.external_url ≡ some (text s))
    pub local :
        v.url ≡ none
        → (legacy ≡ none) ⊎ (legacy ≡ some "")
        → (w.external_url ≡ v.external_url)
          × (w.url
              ≡ some (
                  text
                    ("ws://localhost:" <> port_of port_text mode legacy options v.port <> "/rpc")))
    pub answered : is_mode external mode ≡ true → is_some w.external_url ≡ true
    pub unmixed : is_mode embedded mode ≡ true → is_some v.url ≡ false
    pub one_celery :
        is_truthy w.config_file ≡ true
        → (w.broker_url ≡ none) × (w.result_backend ≡ none) × (options ≡ false)
    pub replayed : is_truthy w.debug_bundle_path ≡ true → is_truthy w.external_url ≡ false

  -- A name that is not empty is truthy.
  filled : (s : String) → s ≢ "" → (s == "") ≡ false
  filled s h = elim (Bool-cases (s == "")) [
    | inl same ↦ absurd (h ((Eq-String.equals_iff s "").0 same))
    | inr other ↦ other
  ]

  own_lem :
      (v : Values) (u : Value)
      → v.url ≡ some u
      → let w = place port_text mode legacy options v in
        (w.url ≡ some u) × (w.external_url ≡ some u)
  unfolding place
  own_lem v u given = (ground (arith, given), ground (arith, given))

  named_lem :
      (v : Values) (s : String)
      → v.url ≡ none
      → legacy ≡ some s
      → (s == "") ≡ false
      → let w = place port_text mode legacy options v in
        (w.url ≡ none) × (w.external_url ≡ some (text s))
  unfolding place
  named_lem v s absent given some_text =
      (ground (arith, absent, given, some_text), ground (arith, absent, given, some_text))

  absent : {A : Type 0} (o : Option A) → is_some o ≡ false → o ≡ none
  absent none h = refl
  absent (some a) h = cc

  -- The external mode has a URL, or the legacy variable is not empty.
  abbrev IsAsked : Values → Type 0
  IsAsked v =
      (is_mode external mode && (not (is_some v.url) && not (is_truthy (text_value legacy))))
      ≡ false

  asked : (v w : Values) → canonical_values port_text mode legacy options v ≡ ok w → IsAsked v
  unfolding canonical_values
  asked v w h = ground (arith, h)

  not_external :
      (v : Values)
      → v.url ≡ none
      → (legacy ≡ none) ⊎ (legacy ≡ some "")
      → IsAsked v
      → is_external port_text mode legacy options v ≡ false
  not_external v absent (inl quiet) h = ground (arith, absent, quiet, h)
  not_external v absent (inr quiet) h = ground (arith, absent, quiet, h)

  local_lem :
      (v : Values)
      → v.url ≡ none
      → is_external port_text mode legacy options v ≡ false
      → let w = place port_text mode legacy options v in
        (w.external_url ≡ v.external_url)
        × (w.url
            ≡ some (
                text ("ws://localhost:" <> port_of port_text mode legacy options v.port <> "/rpc")))
  unfolding place
  local_lem v absent quiet = (ground (arith, quiet), ground (arith, quiet))

  or_else-is_some :
      (url : Option Value) (name : Option String)
      → (not (is_some url) && not (is_truthy (text_value name))) ≡ false
      → is_some (or_else url (text_value name)) ≡ true
  or_else-is_some (some u) name h = refl
  or_else-is_some none (some s) h = refl
  or_else-is_some none none h = cc

  answered_lem :
      (v : Values)
      → is_mode external mode ≡ true
      → IsAsked v
      → is_some (place port_text mode legacy options v).external_url ≡ true
  unfolding place
  answered_lem v asks h =
      ground (arith, asks, or_else-is_some v.url legacy (ground (arith, asks, h)))

  -- A canonical configuration that is accepted is placed. A URL of the configuration's own is that of
  -- the external database; without one, a legacy variable that is not empty names it; with neither,
  -- the database is the local one at the configured port and no external URL is added; the external
  -- mode always has an external URL. The embedded mode has no URL of its own; a module of Celery's
  -- comes without broker, result backend and options; and a replay has no external database.
  pub canonical_values-IsPlaced :
      (v w : Values) → canonical_values port_text mode legacy options v ≡ ok w → IsPlaced v w
  unfolding canonical_values place
  canonical_values-IsPlaced v w h =
      let eq : place port_text mode legacy options v ≡ w = ground (arith, h) in
      subst (IsPlaced v) eq (record {
        own = own_lem v;
        named = λ s absent given some_text. named_lem v s absent given (filled s some_text);
        local = λ absent quiet. local_lem v absent (not_external v absent quiet (asked v w h));
        answered = λ asks. answered_lem v asks (asked v w h);
        unmixed = λ is_embedded. ground (arith, is_embedded, h);
        one_celery = λ module_set. (
          absent v.broker_url (ground (arith, module_set, h)),
          absent v.result_backend (ground (arith, module_set, h)),
          ground (arith, module_set, h),
        );
        replayed = λ replay. ground (arith, replay, h);
      })
