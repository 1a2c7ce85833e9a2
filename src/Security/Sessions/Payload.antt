-- ===== src/Security/Sessions/Payload.antt =====
-- Reading back what a session's payload was made of.
use celery_insights.Common.{
  ◌≡◌, refl, false, lookup, some, List, [], ◌∷◌, String, ◌==◌, ==_refl, Eq-String, Eq-List, Eq-ℕ,
  arith, Bool-cases, inl, inr,
}
use celery_insights.Common.Json.{Json, Fields, end, field, string, get}
use celery_insights.Common.Text.{◌<>◌}
use celery_insights.Security.Permissions.{Role, viewer, operator, administrator}
use celery_insights.Security.Sessions.{
  set_field, role_name, role_of, role_items, roles_of, after_prefix,
}
use Prim.Native.Char.{code}
use package.text.Mathlib.TextLemmas.{nil-append, cons-append}

pub get-set_field :
    (key : String) (value : Json) (fs : Fields) → get key (set_field key value fs) ≡ some value
unfolding get set_field lookup
get-set_field key value end = ground (arith, ==_refl key)
get-set_field key value (field name old fs) =
    ground (arith, ==_refl key, get-set_field key value fs)

pub get-set_other :
    (other key : String) (value : Json) (fs : Fields)
    → (key == other) ≡ false
    → get other (set_field key value fs) ≡ get other fs
unfolding get set_field lookup
get-set_other other key value end h = ground arith
get-set_other other key value (field name old fs) h = elim (Bool-cases (name == key)) [
  | inl same ↦ ground (arith, same, (Eq-String.equals_iff name key).0 same, h)
  | inr differs ↦ ground (arith, get-set_other other key value fs h)
]

pub after_prefix-append : (prefix text : String) → after_prefix prefix (prefix <> text) ≡ some text
unfolding after_prefix
after_prefix-append String.[] text = cc (nil-append text)
after_prefix-append (String.◌∷◌ c prefix) text =
    rw (cons-append c prefix text, ==_refl (code c), after_prefix-append prefix text) refl

pub role_of-name : (role : Role) → role_of (string (role_name role)) ≡ some role
role_of-name viewer = refl
role_of-name operator = refl
role_of-name administrator = refl

pub roles_of-items : (roles : List Role) → roles_of (role_items roles) ≡ some roles
unfolding roles_of
roles_of-items [] = refl
roles_of-items (role ∷ roles) = ground (arith, role_of-name role, roles_of-items roles)
