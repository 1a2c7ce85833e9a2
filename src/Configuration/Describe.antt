-- ===== src/Configuration/Describe.antt =====
-- `describeConfig` of runtime/config-loader.ts, which an administrator may print.
use celery_insights.Common.{
  ◌≡◌, refl, Bool, false, Option, some, none, List, [], ◌∷◌, ◌++◌, String, map, lookup, Eq-String,
  if◌then◌else◌, All, arith, Bool-cases, inl, inr,
}
use celery_insights.Configuration.Values.{Value, text, null}
use celery_insights.Configuration.Registry.{Setting}

-- The value that is shown, with the source and the secrecy of the provenance, if it has one.
pub record Entry : Type 0 where
  pub value : Value
  pub provenance : Option (String × Bool)

abbrev redacted : Value
redacted = text "[redacted]"

abbrev pub or_null : Option Value → Value
or_null none = null
or_null (some v) = v

module _ (provenance : List (String × (String × Bool))) where
  unfoldable pub entry_of : (String → Option Value) → Setting → String × Entry
  entry_of config s = (
    s.path,
    record {
      value = if s.secret then redacted else or_null (config s.key);
      provenance = lookup s.path provenance;
    },
  )

  -- `options` tells whether `celeryOptions` is set.
  unfoldable pub describe_config :
      List Setting → (String → Option Value) → (options : Bool) → List (String × Entry)
  describe_config settings config options =
      map (entry_of config) settings
      ++ (if options
          then (
            "celery.options",
            record { value = redacted; provenance = lookup "celery.options" provenance },
          )
            ∷ []
          else [])

  -- Two configurations with the same values under the keys of the settings that are not secret.
  abbrev pub LooksSame : (String → Option Value) → (String → Option Value) → List Setting → Type 0
  LooksSame left right settings = All (λ s. s.secret ≡ false → left s.key ≡ right s.key) settings

  entry_of-same :
      (left right : String → Option Value) (s : Setting)
      → (s.secret ≡ false → left s.key ≡ right s.key)
      → entry_of left s ≡ entry_of right s
  unfolding entry_of
  entry_of-same left right s h = elim (Bool-cases s.secret) [
    | inl hidden ↦ ground (arith, hidden)
    | inr shown ↦ ground (arith, shown, h shown)
  ]

  map-same :
      (left right : String → Option Value) (settings : List Setting)
      → LooksSame left right settings
      → map (entry_of left) settings ≡ map (entry_of right) settings
  map-same left right [] h = refl
  map-same left right (s ∷ settings) (first, rest) =
      rw (entry_of-same left right s first) (rw (map-same left right settings rest) refl)

  -- No secret is shown: two configurations that have the same values under the keys of the settings
  -- that are not secret, and both or neither of which have options for Celery, are described alike.
  pub describe_config-same :
      (settings : List Setting) (left right : String → Option Value) (options : Bool)
      → LooksSame left right settings
      → describe_config settings left options ≡ describe_config settings right options
  unfolding describe_config
  describe_config-same settings left right options h = rw (map-same left right settings h) refl
