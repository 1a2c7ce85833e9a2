-- ===== src/Mcp/Cursors.antt =====
-- The cursors of the MCP tools: `Cursors` of runtime/mcp/common.ts. JSON, base64url and HMAC-SHA-256
-- are parameters; texts are their characters. A body that is read was signed first, so `parse`
-- gives the fields that the source's cast names.
pub mod Issued
mod Tests
use celery_insights.Common.{
  ℕ, ◌+◌, ◌*◌, Bool, true, false, not, ◌&&◌, ◌||◌, Option, some, none, List, [], ◌∷◌, ◌++◌, String,
  all, if◌then◌else◌, ltb, nat_eq, length, ◌==◌, Eq-List, Eq-ℕ, Eq-Option, get_elem?,
}
use celery_insights.Common.Json.{Json, Fields, fields, get}
use celery_insights.Common.Text.{split}
use mathlib.Core.Option

pub data ToolName : Type 0 where
  search_workflows inspect_workflow inspect_task list_workers inspect_worker : ToolName

-- `===` on tool names.
abbrev pub tool_index : ToolName → ℕ
tool_index ToolName.search_workflows = 0
tool_index ToolName.inspect_workflow = 1
tool_index ToolName.inspect_task = 2
tool_index ToolName.list_workers = 3
tool_index ToolName.inspect_worker = 4

abbrev pub same_tool : ToolName → ToolName → Bool
same_tool a b = nat_eq (tool_index a) (tool_index b)

abbrev pub Text : Type 0
Text = List ℕ

pub record CursorData : Type 0 where
  pub tool : ToolName
  pub scope : Fields
  pub position : Json
  pub expires : ℕ

-- `JSON.stringify` and `JSON.parse` of a cursor, `JSON.stringify` of a selector, base64url and
-- HMAC-SHA-256 of a text under a secret.
pub record Codec : Type 0 where
  pub stringify : CursorData → Text
  pub parse : Text → Option CursorData
  pub json_text : Json → Text
  pub to_base64url : Text → Text
  pub from_base64url : Text → Text
  pub hmac : (secret : Text) → (text : Text) → Text

-- A tool's arguments after its schema: the cursor, when there is one, is not empty.
pub record Input : Type 0 where
  pub cursor : Option Text
  pub selectors : Fields

-- The `ToolError`s of `resolve`.
pub data Refusal : Type 0 where
  cursor_expired invalid_cursor : Refusal

pub data Resolved : Type 0 where
  resolved : (scope : Fields) → (position : Option Json) → Resolved
  refused : Refusal → Resolved

-- `15 * 60_000`.
abbrev pub lifetime : ℕ
lifetime = 15 * 60000

-- `value` is truthy, of a piece that may be missing.
abbrev pub is_text : Option Text → Bool
is_text none = false
is_text (some []) = false
is_text (some (c ∷ cs)) = true

module _ (codec : Codec) (secret : Text) where
  unfoldable pub encode : ℕ → ToolName → Fields → Json → Text
  encode now tool scope position =
      let body = codec.to_base64url (
        codec.stringify
          (record { tool = tool; scope = scope; position = position; expires = now + lifetime })) in
      body ++ b'.' ∷ codec.to_base64url (codec.hmac secret body)

  -- One round of the loop over the input: the selector stands in the scope with the same JSON.
  abbrev pub agrees : Fields → String × Json → Bool
  agrees scope (key, value) =
      Option.map codec.json_text (get key scope) == some (codec.json_text value)

  unfoldable pub check_data : ℕ → ToolName → Fields → Option CursorData → Resolved
  check_data now tool selectors none = refused invalid_cursor
  check_data now tool selectors (some data_read) =
      if not (same_tool data_read.tool tool)
      then refused invalid_cursor
      else if ltb data_read.expires now
      then refused cursor_expired
      else if all (agrees data_read.scope) (fields selectors)
      then resolved data_read.scope (some data_read.position)
      else refused invalid_cursor

  unfoldable pub check_pieces : ℕ → ToolName → Fields → List Text → Resolved
  check_pieces now tool selectors (body ∷ signature ∷ rest) =
      let expected = codec.hmac secret body in
      let actual = codec.from_base64url signature in
      if is_text (get_elem? rest 0)
        || (not (nat_eq (length expected) (length actual)) || not (expected == actual))
      then refused invalid_cursor
      else check_data now tool selectors (codec.parse (codec.from_base64url body))
  check_pieces now tool selectors _ = refused invalid_cursor

  unfoldable pub resolve : ℕ → ToolName → Input → Resolved
  resolve now tool input = elim input.cursor [
    | none ↦ resolved input.selectors none
    | some cursor ↦ check_pieces now tool input.selectors (split b'.' cursor)
  ]
