-- ===== src/Configuration/Loader.antt =====
-- One setting, and all of them in turn: `convert` and the loop over `SETTINGS` of `resolveConfig` in
-- runtime/config-loader.ts. The files, paths and `Number` are parameters.
pub mod Entries
pub mod Environment
pub mod Precedence
use celery_insights.Common.{
  ℕ, Bool, true, false, not, ◌&&◌, ◌||◌, Option, some, none, List, [], ◌∷◌, ◌++◌, String,
  if◌then◌else◌, ltb, includes, ◌==◌, Eq-String, Eq-ℕ, nat_eq, is_some, Result, ok, err,
  other_error, throw_if, ◌>>◌, ◌>>=◌,
}
use celery_insights.Common.Text.{◌<>◌, contains}
use celery_insights.Configuration.Values.{
  Kind, of_text, of_number, of_boolean, of_object, Value, text, number, not_finite, boolean, date,
  null, array, table, drop_newline,
}
use celery_insights.Configuration.Registry.{Setting}
use mathlib.Core.Option

abbrev pub Env : Type 0
Env = String → Option String

-- `path.resolve`, `path.dirname` of the configuration file, the working directory, `readFile` with
-- `none` where it throws, `Buffer.byteLength`, and `Number` of a text that is not blank, where finite.
pub record Host : Type 0 where
  pub resolve_path : (directory : String) → (file : String) → String
  pub file_directory : String
  pub cwd : String
  pub read : String → Option String
  pub byte_length : String → ℕ
  pub finite_number : String → Option ℕ

-- A value, and whether it is `fromEnv`: those are texts.
pub data Given : Type 0 where
  environment : String → Given
  document : Value → Given

abbrev pub kind_of : Value → Kind
kind_of (text s) = of_text
kind_of (number n) = of_number
kind_of not_finite = of_number
kind_of (boolean b) = of_boolean
kind_of _ = of_object

abbrev pub same_kind : Kind → Kind → Bool
same_kind of_text of_text = true
same_kind of_number of_number = true
same_kind of_boolean of_boolean = true
same_kind of_object of_object = true
same_kind _ _ = false

abbrev pub is_finite : Value → Bool
is_finite not_finite = false
is_finite _ = true

abbrev pub typed : Setting → Value → Result Value
typed setting value =
    throw_if (not (same_kind (kind_of value) setting.kind) || not (is_finite value)) other_error
    >> ok value

abbrev pub or_throw : Option ℕ → Result Value
or_throw none = err other_error
or_throw (some n) = ok (number n)

-- `convert`.
unfoldable pub convert : Host → Setting → Given → Result Value
convert host setting (document value) = typed setting value
convert host setting (environment s) = elim setting.kind [
  | of_boolean ↦
      throw_if (not (includes ("true" ∷ "false" ∷ "1" ∷ "0" ∷ []) s)) other_error
      >> ok (boolean (s == "true" || s == "1"))
  | of_number ↦ or_throw (host.finite_number s)
  | of_text ↦ typed setting (text s)
  | of_object ↦ typed setting (text s)
]

-- `===` of two converted values: an object is not one made anew.
abbrev pub same_value : Value → Value → Bool
same_value (text s) (text t) = s == t
same_value (number m) (number n) = nat_eq m n
same_value (boolean true) (boolean c) = c
same_value (boolean false) (boolean c) = not c
same_value _ _ = false

-- Where a value comes from: the value itself, the file that holds it, and the source's name.
pub record Origin : Type 0 where
  pub value : Option Given
  pub file : Option Given
  pub source : String

abbrev pub at {ℓ} : {A : Type ℓ} → (String → Option A) → Option String → Option A
at get none = none
at get (some name) = get name

abbrev pub suffixed : String → Option String → Option String
suffixed suffix none = none
suffixed suffix (some name) = some (name <> suffix)

abbrev pub text_of : Option String → String
text_of none = "undefined"
text_of (some s) = s

pub record Outcome : Type 0 where
  pub value : Option Value
  pub source : String
  pub secret : Bool
  pub deprecated : Bool

pub record Loaded : Type 0 where
  pub values : List (String × Value)
  pub provenance : List (String × (String × Bool))
  pub warnings : List String

abbrev pub set_some : String → Option Value → List (String × Value) → List (String × Value)
set_some key none values = values
set_some key (some value) values = (key, value) ∷ values

abbrev pub warning_of : Setting → String
warning_of setting =
    text_of setting.legacy
    <> " is deprecated; use "
    <> (if is_some setting.env then text_of setting.env else setting.path)

abbrev pub add_outcome : Setting → Outcome → Loaded → Loaded
add_outcome setting o rest = record {
  values = set_some setting.key o.value rest.values;
  provenance = (setting.path, (o.source, o.secret)) ∷ rest.provenance;
  warnings = if o.deprecated then warning_of setting ∷ rest.warnings else rest.warnings;
}

module _ (host : Host) (env : Env) (flat : String → Option Value) where
  abbrev pub current_of : Setting → Option String
  current_of setting = at env setting.env

  abbrev pub old_of : Setting → Option String
  old_of setting = at env setting.legacy

  abbrev pub env_file_of : Setting → Option String
  env_file_of setting = if setting.secret then at env (suffixed "_FILE" setting.env) else none

  abbrev pub toml_file_of : Setting → Option Value
  toml_file_of setting = if setting.secret then flat (setting.path <> "_file") else none

  -- The legacy and the current variable say the same.
  unfoldable pub check_legacy : Setting → Option String → Option String → Result (Unit {0})
  check_legacy setting (some old) (some current) =
      convert host setting (environment old) >>= λ left.
      convert host setting (environment current) >>= λ right.
      throw_if (not (same_value left right)) other_error
  check_legacy setting _ _ = ok tt

  unfoldable pub from_toml : Setting → Result Origin
  from_toml setting =
      throw_if (is_some (flat setting.path) && is_some (toml_file_of setting)) other_error
      >> ok (record {
        value = Option.map document (flat setting.path);
        file = Option.map document (toml_file_of setting);
        source =
            if is_some (flat setting.path) || is_some (toml_file_of setting)
            then "toml:" <> setting.path <> (if is_some (toml_file_of setting) then "_file" else "")
            else "default";
      })

  unfoldable pub from_legacy : Setting → Option String → Result Origin
  from_legacy setting none = from_toml setting
  from_legacy setting (some old) = ok (record {
    value = some (environment old);
    file = none;
    source = "env:" <> text_of setting.legacy;
  })

  -- The environment, else the legacy variable, else the document.
  unfoldable pub origin : Setting → Result Origin
  origin setting =
      if is_some (current_of setting) || is_some (env_file_of setting)
      then ok (record {
        value = Option.map environment (current_of setting);
        file = Option.map environment (env_file_of setting);
        source =
            "env:"
            <> text_of (
                if is_some (env_file_of setting)
                then suffixed "_FILE" setting.env
                else setting.env);
      })
      else from_legacy setting (old_of setting)

  abbrev pub directory_of : Given → String
  directory_of (environment s) = host.cwd
  directory_of (document v) = host.file_directory

  abbrev pub name_of : Given → Option String
  name_of (environment s) = some s
  name_of (document (text s)) = some s
  name_of (document v) = none

  abbrev pub content_like : Given → String → Given
  content_like (environment s) content = environment content
  content_like (document v) content = document (text content)

  abbrev pub read_named : Given → Option String → Result Given
  read_named file none = err other_error
  read_named file (some name) =
      throw_if (name == "") other_error
      >> elim (host.read (host.resolve_path (directory_of file) name)) [
        | none ↦ err other_error
        | some content ↦
            throw_if (ltb 65536 (host.byte_length content)) other_error
            >> ok (content_like file (drop_newline content))
      ]

  -- The value itself, or what the file holds in its place.
  unfoldable pub content_of : Origin → Result (Option Given)
  content_of o = elim o.file [
    | none ↦ ok o.value
    | some file ↦ read_named file (name_of file) >>= λ given. ok (some given)
  ]

  abbrev pub is_blank_secret : Given → Bool
  is_blank_secret (environment s) = s == "" || contains s "\0"
  is_blank_secret (document (text s)) = s == "" || contains s "\0"
  is_blank_secret (document v) = false

  abbrev pub placed : Setting → Given → Value → Value
  placed setting given (text s) =
      if setting.file_path then text (host.resolve_path (directory_of given) s) else text s
  placed setting given value = value

  module _ (accounts : Value → Result Value) where
    abbrev resolved : Value → Result Given
    resolved value = accounts value >>= λ v. ok (document v)

    -- `resolveAccounts`, of the setting of the accounts.
    abbrev pub with_accounts : Setting → Given → Result Given
    with_accounts setting (environment s) =
        if setting.key == "authAccounts" then resolved (text s) else ok (environment s)
    with_accounts setting (document value) =
        if setting.key == "authAccounts" then resolved value else ok (document value)

    unfoldable pub finish : Setting → Option Given → Result (Option Value)
    finish setting none = ok none
    finish setting (some given) =
        throw_if (setting.secret && same_kind setting.kind of_text && is_blank_secret given)
          other_error
        >> (with_accounts setting given >>= λ filled.
            convert host setting filled >>= λ value. ok (some (placed setting given value)))

    -- One round of the loop over the settings.
    unfoldable pub resolve_setting : Setting → Result Outcome
    resolve_setting setting =
        throw_if (is_some (current_of setting) && is_some (env_file_of setting)) other_error
        >> check_legacy setting (old_of setting) (current_of setting)
        >> (origin setting >>= λ o. content_of o >>= λ given. finish setting given >>= λ value.
            ok (record {
              value = value;
              source = o.source;
              secret = setting.secret;
              deprecated = is_some (old_of setting);
            }))

    -- The loop: it stops at the first setting that throws. Keys and paths are distinct.
    unfoldable pub resolve_values : List Setting → Result Loaded
    resolve_values [] = ok (record { values = []; provenance = []; warnings = [] })
    resolve_values (setting ∷ rest) = resolve_setting setting >>= λ o.
        resolve_values rest >>= λ loaded. ok (add_outcome setting o loaded)
