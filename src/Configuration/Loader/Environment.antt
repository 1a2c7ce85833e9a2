-- ===== src/Configuration/Loader/Environment.antt =====
-- What the variables of the environment give.
use celery_insights.Common.{
  ◌≡◌, refl, ◌∙◌, ap, sym, Bool, true, false, ◌&&◌, Option, some, none, List, [], ◌∷◌, String, ◌==◌,
  Eq-String, if◌then◌else◌, ltb, is_some, lookup, All, Result, ok, err, other_error, throw_if,
  ◌>>=◌, ◌>>◌, after-ok, arith,
}
use celery_insights.Common.Text.{◌<>◌}
use celery_insights.Configuration.Values.{of_text, Value, drop_newline}
use celery_insights.Configuration.Registry.{Setting}
use celery_insights.Configuration.Loader.{
  Host, Env, Given, environment, Origin, Outcome, Loaded, at, suffixed, same_kind, convert,
  current_of, old_of, env_file_of, check_legacy, from_legacy, origin, read_named, content_of,
  is_blank_secret, name_of, placed, with_accounts, finish, resolve_setting, resolve_values,
}
use celery_insights.Configuration.Loader.Entries.{
  no_repeat, keys, paths, IsLoaded, resolve_values-IsLoaded,
}

module _ (host : Host) (env : Env) (flat : String → Option Value)
    (accounts : Value → Result Value) where
  -- The setting has the value that this text converts to, and its source is this variable.
  pub record IsGiven (loaded : Loaded) (s : Setting) (variable given : String) : Type 0 where
    pub filled : Given
    pub value : Value
    pub with_resolved : with_accounts host env flat accounts s (environment given) ≡ ok filled
    pub converted : convert host s filled ≡ ok value
    pub kept : lookup s.key loaded.values ≡ some (placed host env flat s (environment given) value)
    pub source : lookup s.path loaded.provenance ≡ some ("env:" <> variable, s.secret)

  -- The variable of a setting, that of the file of a secret, and else the legacy one, stand.
  pub record Stands (loaded : Loaded) (s : Setting) : Type 0 where
    pub own :
        (name given : String)
        → s.env ≡ some name
        → env name ≡ some given
        → IsGiven loaded s name given
    pub file :
        (name path : String)
        → s.secret ≡ true
        → s.env ≡ some name
        → env (name <> "_FILE") ≡ some path
        → (content : String) × (host.read (host.resolve_path host.cwd path) ≡ some content)
          × IsGiven loaded s (name <> "_FILE") (drop_newline content)
    pub legacy :
        (name given : String)
        → at env s.env ≡ none
        → env_file_of host env flat s ≡ none
        → s.legacy ≡ some name
        → env name ≡ some given
        → IsGiven loaded s name given

  -- The parts of a round that returned.
  record IsResolved (s : Setting) (outcome : Outcome) : Type 0 where
    o : Origin
    found : Option Given
    one : (is_some (current_of host env flat s) && is_some (env_file_of host env flat s)) ≡ false
    comes : origin host env flat s ≡ ok o
    has : content_of host env flat o ≡ ok found
    ends : finish host env flat accounts s found ≡ ok outcome.value
    source : outcome.source ≡ o.source
    secret : outcome.secret ≡ s.secret

  throw_if-ok : (b : Bool) → throw_if b other_error ≡ ok tt → b ≡ false
  throw_if-ok true h = cc
  throw_if-ok false h = refl

  resolve_setting-IsResolved :
      (s : Setting) (outcome : Outcome)
      → resolve_setting host env flat accounts s ≡ ok outcome
      → IsResolved s outcome
  unfolding resolve_setting
  resolve_setting-IsResolved s outcome h =
      let test = is_some (current_of host env flat s) && is_some (env_file_of host env flat s) in
      let checked =
        check_legacy host env flat s (old_of host env flat s) (current_of host env flat s) in
      let (_, tested, h2) = after-ok (throw_if test other_error >> checked) h in
      let (_, one, h1) = after-ok (throw_if test other_error) tested in
      let (o, comes, h3) = after-ok (origin host env flat s) h2 in
      let (found, has, h4) = after-ok (content_of host env flat o) h3 in
      let (value, ends, h5) = after-ok (finish host env flat accounts s found) h4 in
      record {
        o = o;
        found = found;
        one = throw_if-ok _ one;
        comes = comes;
        has = has;
        ends = ends ∙ ground (arith, h5);
        source = ground (arith, h5);
        secret = ground (arith, h5);
      }

  finish-IsGiven :
      (loaded : Loaded) (s : Setting) (outcome : Outcome) (variable given : String)
      → finish host env flat accounts s (some (environment given)) ≡ ok outcome.value
      → lookup s.key loaded.values ≡ outcome.value
      → lookup s.path loaded.provenance ≡ some ("env:" <> variable, s.secret)
      → IsGiven loaded s variable given
  unfolding finish
  finish-IsGiven loaded s outcome variable given h k source =
      let (_, _, h1) =
        after-ok
          (throw_if
            (s.secret
              && same_kind s.kind of_text
              && is_blank_secret host env flat (environment given))
            other_error)
          h in
      let (filled, a, h2) =
        after-ok (with_accounts host env flat accounts s (environment given)) h1 in
      let (value, c, h3) = after-ok (convert host s filled) h2 in
      record {
        filled = filled;
        value = value;
        with_resolved = a;
        converted = c;
        kept = k ∙ ground (arith, h3);
        source = source;
      }

  -- What `origin` gives, by where the environment has something.
  origin-own :
      (s : Setting) (o : Origin) (name given : String)
      → s.env ≡ some name
      → env name ≡ some given
      → env_file_of host env flat s ≡ none
      → origin host env flat s ≡ ok o
      → (o.value ≡ some (environment given)) × (o.file ≡ none) × (o.source ≡ "env:" <> name)
  unfolding origin
  origin-own s o name given names has no_file h =
      let current : current_of host env flat s ≡ some given = ap (at env) names ∙ has in
      (
        ground (arith, h, current, no_file),
        ground (arith, h, current, no_file),
        ground (arith, h, current, no_file, names),
      )

  origin-file :
      (s : Setting) (o : Origin) (name path : String)
      → s.env ≡ some name
      → env_file_of host env flat s ≡ some path
      → origin host env flat s ≡ ok o
      → (o.file ≡ some (environment path)) × (o.source ≡ "env:" <> (name <> "_FILE"))
  unfolding origin
  origin-file s o name path names file h = (ground (arith, h, file), ground (arith, h, file, names))

  origin-legacy :
      (s : Setting) (o : Origin) (name given : String)
      → at env s.env ≡ none
      → env_file_of host env flat s ≡ none
      → s.legacy ≡ some name
      → env name ≡ some given
      → origin host env flat s ≡ ok o
      → (o.value ≡ some (environment given)) × (o.file ≡ none) × (o.source ≡ "env:" <> name)
  unfolding origin from_legacy
  origin-legacy s o name given absent no_file names has h =
      let old : old_of host env flat s ≡ some given = ap (at env) names ∙ has in
      (
        ground (arith, h, absent, no_file, old),
        ground (arith, h, absent, no_file, old),
        ground (arith, h, absent, no_file, old, names),
      )

  content_of-value :
      (o : Origin) (found : Option Given)
      → o.file ≡ none
      → content_of host env flat o ≡ ok found
      → found ≡ o.value
  unfolding content_of
  content_of-value o found no_file h = ground (arith, no_file, h)

  content_of-file :
      (o : Origin) (found : Option Given) (path : String)
      → o.file ≡ some (environment path)
      → content_of host env flat o ≡ ok found
      → (content : String) × (host.read (host.resolve_path host.cwd path) ≡ some content)
        × (found ≡ some (environment (drop_newline content)))
  unfolding content_of
  content_of-file o found path file h =
      let (given, read, same) = after-ok (read_named host env flat (environment path) (some path)) (
        ap
          (λ f. elim f [
            | none ↦ ok o.value
            | some file ↦ read_named host env flat file (name_of host env flat file) >>= λ given.
                ok (some given)
          ])
          (sym file)
        ∙ h) in
      let (u, _, found_file) = after-ok (throw_if (path == "") other_error) read in
      by_read (host.read (host.resolve_path host.cwd path)) refl found_file same
    where
      by_read :
          {given : Given} (r : Option String)
          → host.read (host.resolve_path host.cwd path) ≡ r
          → (elim r [
            | none ↦ err other_error
            | some content ↦
                throw_if (ltb 65536 (host.byte_length content)) other_error
                >> ok (environment (drop_newline content))
          ])
            ≡ ok given
          → ok (some given) ≡ ok found
          → (content : String) × (host.read (host.resolve_path host.cwd path) ≡ some content)
            × (found ≡ some (environment (drop_newline content)))
      by_read none e h same = cc
      by_read (some content) e h same =
          let (u, _, eq) =
            after-ok (throw_if (ltb 65536 (host.byte_length content)) other_error) h in
          (content, e, ground (arith, eq, same))

  alone :
      (s : Setting) (name given : String)
      → s.env ≡ some name
      → env name ≡ some given
      → (is_some (current_of host env flat s) && is_some (env_file_of host env flat s)) ≡ false
      → env_file_of host env flat s ≡ none
  alone s name given names has one = absent (env_file_of host env flat s) (
      ap (λ c. is_some c && is_some (env_file_of host env flat s)) (sym (ap (at env) names ∙ has))
      ∙ one)
    where
      absent : (o : Option String) → is_some o ≡ false → o ≡ none
      absent none h = refl
      absent (some x) h = cc

  file_named :
      (s : Setting) (name path : String)
      → s.secret ≡ true
      → s.env ≡ some name
      → env (name <> "_FILE") ≡ some path
      → env_file_of host env flat s ≡ some path
  file_named s name path secret names has =
      ap (λ b. if b then at env (suffixed "_FILE" s.env) else none) secret
      ∙ ap (λ e. at env (suffixed "_FILE" e)) names
      ∙ has

  Stands-IsLoaded :
      (loaded : Loaded) (s : Setting) → IsLoaded host env flat accounts loaded s → Stands loaded s
  Stands-IsLoaded loaded s l =
      let r = resolve_setting-IsResolved s l.outcome l.own in
      let named : (variable : String)
          → r.o.source ≡ "env:" <> variable
          → lookup s.path loaded.provenance ≡ some ("env:" <> variable, s.secret) =
        λ variable same.
          l.kept_source
          ∙ ap (λ source. some (source, l.outcome.secret)) (r.source ∙ same)
          ∙ ap (λ secret. some ("env:" <> variable, secret)) r.secret in
      let given : (variable text : String)
          → r.found ≡ some (environment text)
          → r.o.source ≡ "env:" <> variable
          → IsGiven loaded s variable text =
        λ variable text same source.
          finish-IsGiven loaded s l.outcome variable text
            (ap (finish host env flat accounts s) (sym same) ∙ r.ends) l.kept_value
            (named variable source) in
      record {
        own = λ name text names has.
            let no_file = alone s name text names has r.one in
            let (value, file, source) = origin-own s r.o name text names has no_file r.comes in
            given name text (content_of-value r.o r.found file r.has ∙ value) source;
        file = λ name path secret names has.
            let (file, source) =
              origin-file s r.o name path names (file_named s name path secret names has) r.comes in
            let (content, read, same) = content_of-file r.o r.found path file r.has in
            (content, read, given (name <> "_FILE") (drop_newline content) same source);
        legacy = λ name text absent no_file names has.
            let (value, file, source) =
              origin-legacy s r.o name text absent no_file names has r.comes in
            given name text (content_of-value r.o r.found file r.has ∙ value) source;
      }

  -- What the environment gives a setting stands, whatever the document says: when the settings' keys
  -- and paths are distinct and none of them throws, a setting whose variable is set has the value
  -- that the variable's text converts to, and the variable for its source; a secret whose variable
  -- with the suffix "_FILE" is set has the value that the content of this file converts to, less a
  -- line break at the end; and a setting for which neither is set but the legacy variable is has the
  -- value of that one. The accounts are resolved before, and a path of a file is resolved after the
  -- conversion.
  pub resolve_values-Stands :
      (settings : List Setting) (loaded : Loaded)
      → no_repeat (keys settings) ≡ true
      → no_repeat (paths settings) ≡ true
      → resolve_values host env flat accounts settings ≡ ok loaded
      → All (Stands loaded) settings
  resolve_values-Stands settings loaded h k l =
      stand settings (resolve_values-IsLoaded host env flat accounts settings loaded h k l)
    where
      stand :
          (settings : List Setting)
          → All (IsLoaded host env flat accounts loaded) settings
          → All (Stands loaded) settings
      stand [] all = tt
      stand (s ∷ settings) (first, all) = (Stands-IsLoaded loaded s first, stand settings all)
