-- ===== src/Configuration/Loader/Entries.antt =====
-- What the loop over the settings leaves for each of them.
use celery_insights.Common.{
  ◌≡◌, refl, ◌∙◌, ap, sym, Bool, true, false, not, ◌&&◌, Option, some, none, List, [], ◌∷◌, String,
  map, includes, ◌==◌, ==_refl, Eq-String, lookup, subst, All, Result, ok, after-ok, arith,
  Bool-cases, inl, inr,
}
use celery_insights.Configuration.Values.{Value}
use celery_insights.Configuration.Registry.{Setting}
use celery_insights.Configuration.Loader.{
  Host, Env, Outcome, Loaded, set_some, add_outcome, resolve_setting, resolve_values,
}

abbrev pub no_repeat : List String → Bool
no_repeat [] = true
no_repeat (x ∷ xs) = not (includes xs x) && no_repeat xs

abbrev pub keys : List Setting → List String
keys settings = map (λ s. s.key) settings

abbrev pub paths : List Setting → List String
paths settings = map (λ s. s.path) settings

lookup-set_some :
    (key other : String) (value : Option Value) (m : List (String × Value))
    → (other == key) ≡ false
    → lookup key (set_some other value m) ≡ lookup key m
unfolding lookup
lookup-set_some key other none m h = refl
lookup-set_some key other (some v) m h = ground (arith, h)

lookup_own :
    (key : String) (value : Option Value) (m : List (String × Value))
    → lookup key m ≡ none
    → lookup key (set_some key value m) ≡ value
unfolding lookup
lookup_own key none m h = h
lookup_own key (some v) m h = ground (arith, ==_refl key)

differs : (key other : String) → (other == key) ≡ false → (key == other) ≡ false
differs key other h = elim (Bool-cases (key == other)) [
  | inl same ↦ absurd (ground (arith, h, (Eq-String.equals_iff key other).0 same, ==_refl key))
  | inr apart ↦ apart
]

module _ (host : Host) (env : Env) (flat : String → Option Value)
    (accounts : Value → Result Value) where
  -- A setting's value and source are those that its own round gave.
  pub record IsLoaded (loaded : Loaded) (s : Setting) : Type 0 where
    pub outcome : Outcome
    pub own : resolve_setting host env flat accounts s ≡ ok outcome
    pub kept_value : lookup s.key loaded.values ≡ outcome.value
    pub kept_source : lookup s.path loaded.provenance ≡ some (outcome.source, outcome.secret)

  lookup_absent :
      (key : String) (settings : List Setting) (loaded : Loaded)
      → includes (keys settings) key ≡ false
      → resolve_values host env flat accounts settings ≡ ok loaded
      → lookup key loaded.values ≡ none
  unfolding resolve_values includes lookup
  lookup_absent key [] loaded h k = ground (arith, k)
  lookup_absent key (s ∷ settings) loaded h k =
      let (o, own, next) = after-ok (resolve_setting host env flat accounts s) k in
      let (rest, looped, same) = after-ok (resolve_values host env flat accounts settings) next in
      let eq : add_outcome s o rest ≡ loaded = ground (arith, same) in
      ap (λ l. lookup key l.values) (sym eq)
      ∙ lookup-set_some key s.key o.value rest.values (ground (arith, h))
      ∙ lookup_absent key settings rest (ground (arith, h)) looped

  -- A setting with another key and path than the one just done keeps what it has.
  IsLoaded-add_outcome :
      (s : Setting) (o : Outcome) (rest : Loaded) (others : List Setting)
      → includes (keys others) s.key ≡ false
      → includes (paths others) s.path ≡ false
      → All (IsLoaded rest) others
      → All (IsLoaded (add_outcome s o rest)) others
  unfolding includes lookup
  IsLoaded-add_outcome s o rest [] h k all = tt
  IsLoaded-add_outcome s o rest (other ∷ others) h k (first, all) = (
    record {
      outcome = first.outcome;
      own = first.own;
      kept_value =
          lookup-set_some other.key s.key o.value rest.values
            (differs s.key other.key (ground (arith, h)))
          ∙ first.kept_value;
      kept_source =
          let apart = differs s.path other.path (ground (arith, k)) in
          let kept = first.kept_source in ground (arith, apart, kept);
    },
    IsLoaded-add_outcome s o rest others (ground (arith, h)) (ground (arith, k)) all,
  )

  own-IsLoaded :
      (s : Setting) (o : Outcome) (rest : Loaded)
      → resolve_setting host env flat accounts s ≡ ok o
      → lookup s.key rest.values ≡ none
      → IsLoaded (add_outcome s o rest) s
  unfolding lookup
  own-IsLoaded s o rest own fresh = record {
    outcome = o;
    own = own;
    kept_value = lookup_own s.key o.value rest.values fresh;
    kept_source = ground (arith, ==_refl s.path);
  }

  -- When the settings' keys and paths are distinct and none of them throws, each has in the values
  -- the value that its own round gave, or none when that gave none, and in the provenance the
  -- source and the secrecy of that round.
  pub resolve_values-IsLoaded :
      (settings : List Setting) (loaded : Loaded)
      → no_repeat (keys settings) ≡ true
      → no_repeat (paths settings) ≡ true
      → resolve_values host env flat accounts settings ≡ ok loaded
      → All (IsLoaded loaded) settings
  unfolding resolve_values
  resolve_values-IsLoaded [] loaded h k l = tt
  resolve_values-IsLoaded (s ∷ settings) loaded h k l =
      let (o, own, next) = after-ok (resolve_setting host env flat accounts s) l in
      let (rest, looped, same) = after-ok (resolve_values host env flat accounts settings) next in
      let eq : add_outcome s o rest ≡ loaded = ground (arith, same) in
      let absent = lookup_absent s.key settings rest (ground (arith, h)) looped in
      subst (λ l. All (IsLoaded l) (s ∷ settings)) eq
        (
          own-IsLoaded s o rest own absent,
          IsLoaded-add_outcome s o rest settings (ground (arith, h)) (ground (arith, k)) (
              resolve_values-IsLoaded settings rest (ground (arith, h)) (ground (arith, k)) looped),
        )
