-- ===== src/Mcp.antt =====
-- Pages of the MCP tools: `Results.page` and `Results.finish` of runtime/mcp/common.ts. A row is
-- any type; `utf8Size` of the page and the cursor that is encoded for a row are parameters.
pub mod Cursors
pub mod Paging
mod Tests
use celery_insights.Common.{
  ℕ, zero, suc, ◌*◌, Bool, true, false, not, ◌&&◌, Option, some, none, List, [], ◌∷◌, String,
  if◌then◌else◌, ltb, leb, length, take,
}

-- `MAX_RESPONSE_BYTES`.
abbrev pub max_response_bytes : ℕ
max_response_bytes = 24 * 1024

pub record Page (T : Type 0) : Type 0 where
  pub items : List T
  pub returned : ℕ
  pub total : Option ℕ
  pub has_more : Bool
  pub next_cursor : Option String

-- The `ToolError` "query_budget_exceeded", for one result or for the response.
pub data ToolError : Type 0 where
  result_exceeds response_exceeds : ToolError

pub data Outcome (T : Type 0) : Type 0 where
  answer : Page T → Outcome T
  refusal : ToolError → Outcome T

-- `items.pop()`.
unfoldable pub pop : {T : Type 0} → List T → List T
pop [] = []
pop (x ∷ []) = []
pop (x ∷ y ∷ ys) = x ∷ pop (y ∷ ys)

-- `items[items.length - 1]`.
unfoldable pub last : {T : Type 0} → List T → Option T
last [] = none
last (x ∷ []) = some x
last (x ∷ y ∷ ys) = last (y ∷ ys)

abbrev pub is_empty_list : {T : Type 0} → List T → Bool
is_empty_list [] = true
is_empty_list (x ∷ xs) = false

abbrev pub cursor_of : {T : Type 0} → (T → String) → Option T → Option String
cursor_of encode none = none
cursor_of encode (some row) = some (encode row)

module _ {T : Type 0} (utf8_size : Page T → ℕ) (encode : T → String) (total : Option ℕ) where
  unfoldable pub make : List T → List T → Page T
  make rows items = record {
    items = items;
    returned = length items;
    total = total;
    has_more = ltb (length items) (length rows);
    next_cursor = if ltb (length items) (length rows) then cursor_of encode (last items) else none;
  }

  abbrev pub exceeds : List T → List T → Bool
  exceeds rows items = ltb max_response_bytes (utf8_size (make rows items))

  -- The `while` loop, on fuel.
  unfoldable pub shrink : ℕ → List T → List T → List T
  shrink zero rows items = items
  shrink (suc fuel) rows items =
      let rest = shrink fuel rows (pop items) in
      if not (is_empty_list items) && exceeds rows items then rest else items

  unfoldable pub finish : Page T → Outcome T
  finish page =
      if ltb max_response_bytes (utf8_size page) then refusal response_exceeds else answer page

  unfoldable pub page : List T → ℕ → Outcome T
  page rows limit =
      let items = shrink (length (take limit rows)) rows (take limit rows) in
      if not (is_empty_list rows) && is_empty_list items
      then refusal result_exceeds
      else finish (make rows items)
