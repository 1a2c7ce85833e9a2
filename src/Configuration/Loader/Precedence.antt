-- ===== src/Configuration/Loader/Precedence.antt =====
-- A setting that the environment gives does not depend on the document.
use celery_insights.Common.{
  ◌≡◌, refl, Bool, false, ◌||◌, Option, some, none, List, [], ◌∷◌, String, if◌then◌else◌, is_some,
  All, Result, arith, Bool-cases, inl, inr,
}
use celery_insights.Common.Text.{◌<>◌}
use celery_insights.Configuration.Values.{Value}
use celery_insights.Configuration.Registry.{Setting}
use celery_insights.Configuration.Loader.{
  Host, Env, env_file_of, from_toml, from_legacy, origin, check_legacy, content_of, finish,
  resolve_setting, resolve_values, suffixed, at,
}

-- Some variable of the environment, its own, its file's or the legacy one, gives the setting.
abbrev pub is_given : Env → Setting → Bool
is_given env setting =
    is_some (at env setting.env)
    || (is_some (if setting.secret then at env (suffixed "_FILE" setting.env) else none)
        || is_some (at env setting.legacy))

module _ (host : Host) (env : Env) (left right : String → Option Value) where
  -- The two documents say the same of a setting.
  abbrev pub SaysSame : Setting → Type 0
  SaysSame setting =
      (left setting.path ≡ right setting.path)
      × (left (setting.path <> "_file") ≡ right (setting.path <> "_file"))

  from_toml-same :
      (s : Setting) → SaysSame s → from_toml host env left s ≡ from_toml host env right s
  unfolding from_toml
  from_toml-same s (h, k) = rw h (rw k refl)

  from_legacy-same :
      (s : Setting) (old : Option String)
      → (is_some old ≡ false → SaysSame s)
      → from_legacy host env left s old ≡ from_legacy host env right s old
  unfolding from_legacy
  from_legacy-same s none h = from_toml-same s (h refl)
  from_legacy-same s (some text) h = refl

  origin-same :
      (s : Setting)
      → (is_given env s ≡ false → SaysSame s)
      → origin host env left s ≡ origin host env right s
  unfolding origin
  origin-same s h =
      elim (Bool-cases (is_some (at env s.env) || is_some (env_file_of host env left s))) [
        | inl given ↦ ground (arith, given)
        | inr absent ↦ ground (
          arith,
          absent,
          from_legacy-same s (at env s.legacy) (λ none_old. h (ground (arith, absent, none_old))),
        )
      ]

  resolve_setting-same :
      (accounts : Value → Result Value) (s : Setting)
      → (is_given env s ≡ false → SaysSame s)
      → resolve_setting host env left accounts s ≡ resolve_setting host env right accounts s
  unfolding resolve_setting check_legacy content_of finish
  resolve_setting-same accounts s h = rw (origin-same s h) refl

  -- Two documents that say the same of each setting that no variable of the environment gives are
  -- loaded alike: the values, their sources and the warnings, or the throw, are the same.
  pub resolve_values-same :
      (accounts : Value → Result Value) (settings : List Setting)
      → All (λ s. is_given env s ≡ false → SaysSame s) settings
      → resolve_values host env left accounts settings
        ≡ resolve_values host env right accounts settings
  unfolding resolve_values
  resolve_values-same accounts [] h = refl
  resolve_values-same accounts (s ∷ settings) (first, rest) =
      rw (resolve_setting-same accounts s first)
        (rw (resolve_values-same accounts settings rest) refl)
