-- ===== src/Common/Json.antt =====
-- Values that `JSON.parse` returns, and the tests that the source makes on them. An object's keys
-- are distinct.
use Prim.Native.Nat.{ℕ, ◌+◌}
use Prim.Native.Char.{code}
use Prim.Native.String.{String}
use mathlib.Core.Bool.{Bool}
use mathlib.Core.Option.{Option}
use mathlib.Core.List.{List, [], ◌∷◌}
use celery_insights.Common.Numbers.{leb, if◌then◌else◌}
use celery_insights.Common.Equality.{Eq-String, lookup}

mutual
  pub data Json : Type 0 where
    null : Json
    boolean : Bool → Json
    number : ℕ → Json
    string : String → Json
    array : Items → Json
    object : Fields → Json

  pub data Items : Type 0 where
    nil : Items
    cons : Json → Items → Items

  pub data Fields : Type 0 where
    end : Fields
    field : String → Json → Fields → Fields

abbrev pub items : Items → List Json
items nil = []
items (cons v vs) = v ∷ items vs

abbrev pub fields : Fields → List (String × Json)
fields end = []
fields (field k v fs) = (k, v) ∷ fields fs

-- `object[key]`, with `none` for a key that is not there.
unfoldable pub get : String → Fields → Option Json
get key fs = lookup key (fields fs)

-- `text.length`: the number of UTF-16 units.
abbrev pub units : ℕ → ℕ
units c = if leb 65536 c then 2 else 1

abbrev pub utf16_length : String → ℕ
utf16_length String.[] = 0
utf16_length (String.◌∷◌ c s) = units (code c) + utf16_length s
