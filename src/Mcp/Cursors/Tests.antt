-- ===== src/Mcp/Cursors/Tests.antt =====
-- A cursor of a task inspection: the body is one character, and the signature repeats it.
use celery_insights.Common.{
  ℕ, ◌+◌, ◌-◌, ◌≡◌, refl, true, some, [], ◌∷◌, ◌++◌, map, all, ltb, lookup, list_eq, if◌then◌else◌,
  arith,
}
use celery_insights.Common.Json.{Json, Fields, string, end, field, get}
use celery_insights.Common.Text.{codes}
use celery_insights.Common.Split.{lacks}
use celery_insights.Mcp.Cursors.{
  ToolName, Text, CursorData, Codec, resolved, refused, cursor_expired, encode, resolve,
}
use celery_insights.Mcp.Cursors.Issued.{
  IsBase64url, cursor_data, resolve-encode, IsGrant, resolve-IsGrant, Unforged,
}

abbrev scope : Fields
scope = field "task_id" (string "a") end

abbrev issued : CursorData
issued = cursor_data 5 ToolName.inspect_task scope (string "p")

-- Characters from the dot on are moved up by one.
abbrev shift : ℕ → ℕ
shift c = if ltb c 46 then c else c + 1

abbrev unshift : ℕ → ℕ
unshift c = if ltb c 46 then c else c - 1

abbrev value_text : Json → Text
value_text (string s) = codes s
value_text _ = []

abbrev codec : Codec
codec = record {
  stringify = λ d. 7 ∷ [];
  parse = λ text. some issued;
  json_text = value_text;
  to_base64url = map shift;
  from_base64url = map unshift;
  hmac = λ secret text. secret ++ text;
}

unshift-shift : (text : Text) → map unshift (map shift text) ≡ text
unshift-shift [] = refl
unshift-shift (c ∷ text) = ground (arith, unshift-shift text)

lacks-shift : (text : Text) → lacks 46 (map shift text) ≡ true
unfolding all
lacks-shift [] = refl
lacks-shift (c ∷ text) = ground (arith, lacks-shift text)

laws : IsBase64url codec
laws = record { reads_back = unshift-shift; no_dot = lacks-shift }

resolve-encode_example :
    resolve codec (codes "key") 900005 ToolName.inspect_task (record {
      cursor = some (encode codec (codes "key") 5 ToolName.inspect_task scope (string "p"));
      selectors = scope;
    })
    ≡ resolved scope (some (string "p"))
unfolding all get lookup list_eq
resolve-encode_example =
    resolve-encode codec (codes "key") laws 5 900005 ToolName.inspect_task ToolName.inspect_task
      scope scope (string "p") refl

-- The same cursor a millisecond later.
late :
    resolve codec (codes "key") 900006 ToolName.inspect_task (record {
      cursor = some (encode codec (codes "key") 5 ToolName.inspect_task scope (string "p"));
      selectors = scope;
    })
    ≡ refused cursor_expired
late =
    resolve-encode codec (codes "key") laws 5 900006 ToolName.inspect_task ToolName.inspect_task
      scope scope (string "p") refl

unforged :
    Unforged codec
      (codes "key")
      (λ d. d ≡ issued)
      (encode codec (codes "key") 5 ToolName.inspect_task scope (string "p"))
unforged body signature rest same h = (issued, refl, refl)

resolve-IsGrant_example :
    IsGrant codec
      (codes "key")
      (λ d. d ≡ issued)
      900005
      ToolName.inspect_task
      scope
      scope
      (some (string "p"))
resolve-IsGrant_example =
    resolve-IsGrant codec (codes "key") (λ d. d ≡ issued) 900005 ToolName.inspect_task
      (encode codec (codes "key") 5 ToolName.inspect_task scope (string "p")) scope scope
      (some (string "p")) unforged resolve-encode_example
