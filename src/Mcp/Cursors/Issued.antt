-- ===== src/Mcp/Cursors/Issued.antt =====
-- What a cursor that was issued resolves to, and what a cursor that resolves was issued for.
use celery_insights.Common.{
  ℕ, zero, suc, ◌+◌, ◌≤◌, ◌≡◌, refl, ◌∙◌, ap, sym, true, not, Option, some, List, [], ◌∷◌, ◌++◌,
  all, if◌then◌else◌, ltb, nat_eq_iff, length, ==_refl, Eq-List, Eq-ℕ, Eq-Option, arith,
}
use celery_insights.Common.Json.{Json, Fields, fields}
use celery_insights.Common.Text.{split}
use celery_insights.Common.Split.{lacks, split-lacks, split-append}
use celery_insights.Mcp.Cursors.{
  ToolName, tool_index, same_tool, Text, CursorData, Codec, cursor_expired, invalid_cursor,
  resolved, refused, lifetime, encode, agrees, check_data, check_pieces, resolve,
}

-- base64url reads back what it wrote, and writes no dot.
pub record IsBase64url (codec : Codec) : Type 0 where
  pub reads_back : (text : Text) → codec.from_base64url (codec.to_base64url text) ≡ text
  pub no_dot : (text : Text) → lacks b'.' (codec.to_base64url text) ≡ true

-- What `encode` writes at a time.
abbrev pub cursor_data : ℕ → ToolName → Fields → Json → CursorData
cursor_data now tool scope position = record {
  tool = tool;
  scope = scope;
  position = position;
  expires = now + lifetime;
}

module _ (codec : Codec) (secret : Text) (laws : IsBase64url codec) where
  split-signed :
      (body signature : Text)
      → split b'.' (codec.to_base64url body ++ b'.' ∷ codec.to_base64url signature)
        ≡ codec.to_base64url body ∷ codec.to_base64url signature ∷ []
  split-signed body signature =
      split-append b'.' (codec.to_base64url body) (codec.to_base64url signature) (laws.no_dot body)
      ∙ ap (λ pieces. codec.to_base64url body ∷ pieces)
          (split-lacks b'.' (codec.to_base64url signature) (laws.no_dot signature))

  check-signed :
      (now : ℕ) (tool : ToolName) (selectors : Fields) (body : Text)
      → check_pieces codec secret now tool selectors (
          codec.to_base64url body
          ∷ codec.to_base64url (codec.hmac secret (codec.to_base64url body))
          ∷ [])
        ≡ check_data codec secret now tool selectors (codec.parse body)
  unfolding check_pieces
  check-signed now tool selectors body =
      let signature = codec.hmac secret (codec.to_base64url body) in
      ground (
        arith,
        laws.reads_back body,
        laws.reads_back signature,
        ==_refl signature,
        ==_refl (length signature),
      )

  -- A cursor that `encode` gave at a time resolves as follows, when its JSON reads back. Of another
  -- tool it is invalid. Later than fifteen minutes after it was given it is expired. Otherwise,
  -- where each argument beside it has the JSON of the scope's field of that name, it gives the
  -- scope and the position that were encoded; else it is invalid.
  pub resolve-encode :
      (given now : ℕ) (tool other : ToolName) (scope selectors : Fields) (position : Json)
      → codec.parse (codec.stringify (cursor_data given tool scope position))
        ≡ some (cursor_data given tool scope position)
      → resolve codec secret now other (record {
        cursor = some (encode codec secret given tool scope position);
        selectors = selectors;
      })
        ≡ (if not (same_tool tool other)
            then refused invalid_cursor
            else if ltb (given + lifetime) now
            then refused cursor_expired
            else if all (agrees codec secret scope) (fields selectors)
            then resolved scope (some position)
            else refused invalid_cursor)
  unfolding resolve encode check_data
  resolve-encode given now tool other scope selectors position readable =
      ap (check_pieces codec secret now other selectors) (
        split-signed (codec.stringify (cursor_data given tool scope position)) (
          codec.hmac secret
            (codec.to_base64url (codec.stringify (cursor_data given tool scope position)))))
      ∙ check-signed now other selectors (codec.stringify (cursor_data given tool scope position))
      ∙ ap (check_data codec secret now other selectors) readable

tool_at : ℕ → ToolName
tool_at zero = ToolName.search_workflows
tool_at (suc zero) = ToolName.inspect_workflow
tool_at (suc (suc zero)) = ToolName.inspect_task
tool_at (suc (suc (suc zero))) = ToolName.list_workers
tool_at _ = ToolName.inspect_worker

tool_at-tool_index : (tool : ToolName) → tool_at (tool_index tool) ≡ tool
unfolding tool_at
tool_at-tool_index ToolName.search_workflows = refl
tool_at-tool_index ToolName.inspect_workflow = refl
tool_at-tool_index ToolName.inspect_task = refl
tool_at-tool_index ToolName.list_workers = refl
tool_at-tool_index ToolName.inspect_worker = refl

same_tool-eq : (a b : ToolName) → same_tool a b ≡ true → a ≡ b
same_tool-eq a b h =
    sym (tool_at-tool_index a)
    ∙ ap tool_at ((nat_eq_iff (tool_index a) (tool_index b)).0 h)
    ∙ tool_at-tool_index b

module _ (codec : Codec) (secret : Text) (Issued : CursorData → Type 0) where
  -- The data that a cursor was issued for, which allows what the call gives.
  pub record IsGrant (now : ℕ) (tool : ToolName) (selectors scope : Fields) (position : Option Json)
      : Type 0 where
    pub grant : CursorData
    pub was_issued : Issued grant
    pub for_tool : grant.tool ≡ tool
    pub in_time : now ≤ grant.expires
    pub of_scope : scope ≡ grant.scope
    pub of_position : position ≡ some grant.position
    pub agreed : all (agrees codec secret grant.scope) (fields selectors) ≡ true

  -- Nobody without the secret makes a signature: a body that stands in the cursor with its
  -- signature is one that was issued, and that reads back.
  abbrev pub Unforged : Text → Type 0
  Unforged cursor =
      (body signature : Text) (rest : List Text)
      → split b'.' cursor ≡ body ∷ signature ∷ rest
      → codec.from_base64url signature ≡ codec.hmac secret body
      → (d : CursorData) × Issued d × (codec.parse (codec.from_base64url body) ≡ some d)

  check_data-IsGrant :
      (now : ℕ) (tool : ToolName) (selectors scope : Fields) (position : Option Json)
      (d : CursorData)
      → Issued d
      → check_data codec secret now tool selectors (some d) ≡ resolved scope position
      → IsGrant now tool selectors scope position
  unfolding check_data
  check_data-IsGrant now tool selectors scope position d known h = record {
    grant = d;
    was_issued = known;
    for_tool = same_tool-eq d.tool tool (ground (arith, h));
    in_time = ground (arith, h);
    of_scope = ground (arith, h);
    of_position = ground (arith, h);
    agreed = ground (arith, h);
  }

  check_pieces-IsGrant :
      (now : ℕ) (tool : ToolName) (selectors scope : Fields) (position : Option Json)
      (cursor : Text) (pieces : List Text)
      → Unforged cursor
      → split b'.' cursor ≡ pieces
      → check_pieces codec secret now tool selectors pieces ≡ resolved scope position
      → IsGrant now tool selectors scope position
  unfolding check_pieces
  check_pieces-IsGrant now tool selectors scope position cursor [] unforged same h = cc
  check_pieces-IsGrant now tool selectors scope position cursor (body ∷ []) unforged same h = cc
  check_pieces-IsGrant now tool selectors scope position cursor (body ∷ signature ∷ rest) unforged
        same h =
      let equal =
        (Eq-List.equals_iff (codec.hmac secret body) (codec.from_base64url signature)).0
          (ground (arith, h)) in
      let (d, known, reads) = unforged body signature rest same (sym equal) in
      check_data-IsGrant now tool selectors scope position d known
        (ap (check_data codec secret now tool selectors) (sym reads) ∙ ground (arith, h))

  -- Where signatures are not forged, a cursor resolves only to the scope and the position that were
  -- issued for the same tool, before they expire, and when each argument beside the cursor has the
  -- JSON of the scope's field of that name.
  pub resolve-IsGrant :
      (now : ℕ) (tool : ToolName) (cursor : Text) (selectors scope : Fields)
      (position : Option Json)
      → Unforged cursor
      → resolve codec secret now tool (record { cursor = some cursor; selectors = selectors })
        ≡ resolved scope position
      → IsGrant now tool selectors scope position
  unfolding resolve
  resolve-IsGrant now tool cursor selectors scope position unforged h =
      check_pieces-IsGrant now tool selectors scope position cursor (split b'.' cursor) unforged
        refl h
