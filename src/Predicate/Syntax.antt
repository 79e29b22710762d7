-- ===== src/Predicate/Syntax.antt =====
-- The AST of predicates.py, and its whitelist of fields.
use traceline.Common.{String, List, [], ◌∷◌}
use traceline.Values.{Value}

-- The operators of a comparison.
pub data CompareOp : Type 0 where
  eq ne lt le gt ge : CompareOp

pub data Node (F : Type 0) : Type 0 where
  literal : Value F → Node F
  path : List String → Node F
  compare : CompareOp → Node F → Node F → Node F
  and_node : Node F → Node F → Node F
  or_node : Node F → Node F → Node F
  not_node : Node F → Node F

-- ALLOWED_FIELDS
abbrev pub allowed_fields : List String
allowed_fields =
    "payload" ∷ "cost" ∷ "timestamp" ∷ "provider_request_id" ∷ "parent_event_id" ∷ "redaction_state"
    ∷ []
