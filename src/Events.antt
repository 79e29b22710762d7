-- ===== src/Events.antt =====
-- events.py (src/llm_agent_eval/events.py): the trace event and its closed enumerations. The ids of
-- run, workspace, case and attempt and the retry counters, which no evaluation code here reads, are
-- left out, and so are the envelope's serialisation and the identifiers made by `make_event`.
use traceline.Common.{String, Bool, true, false, Option, none, some, List, [], ◌∷◌}
use traceline.Common.Int.{ℤ}
use traceline.Values.{
  Value, int, float, str, null, list, dict, model, Items, nil, cons, Entries, end, entry, DateTime,
}

pub data EventType : Type 0 where
  llm_call llm_response tool_call tool_result error retrieval delegation guardrail_check : EventType
  wait_for_input user_response stream_start first_token retry budget_exceeded : EventType

-- EventType.value
unfoldable pub type_value : EventType → String
type_value llm_call = "llm_call"
type_value llm_response = "llm_response"
type_value tool_call = "tool_call"
type_value tool_result = "tool_result"
type_value error = "error"
type_value retrieval = "retrieval"
type_value delegation = "delegation"
type_value guardrail_check = "guardrail_check"
type_value wait_for_input = "wait_for_input"
type_value user_response = "user_response"
type_value stream_start = "stream_start"
type_value first_token = "first_token"
type_value retry = "retry"
type_value budget_exceeded = "budget_exceeded"

pub data Source : Type 0 where
  proxy adapter runner : Source

-- Source.value
unfoldable pub source_value : Source → String
source_value proxy = "proxy"
source_value adapter = "adapter"
source_value runner = "runner"

pub record TokenUsage : Type 0 where
  pub input : ℤ
  pub output : ℤ
  pub cache_read : ℤ
  pub cache_write : ℤ

pub record CostBlock (F : Type 0) : Type 0 where
  pub tokens : TokenUsage
  pub cost_usd : F
  pub currency : String
  pub price_version : String

pub record RedactionState : Type 0 where
  pub status : String
  pub rules : List String

pub record TraceEvent (F : Type 0) : Type 0 where
  pub event_id : String
  pub type : EventType
  pub source : Source
  pub timestamp : DateTime
  pub sequence : ℤ
  pub parent_event_id : Option String
  pub provider_request_id : Option String
  pub tool : Option String
  pub cost : Option (CostBlock F)
  pub redaction_state : RedactionState
  pub payload : Option (Entries F)

-- The validator `_tool_typed_column`: a tool on a call or a result, and on no other event.
unfoldable pub tool_typed_column : EventType → Option String → Bool
tool_typed_column tool_call none = false
tool_typed_column tool_result none = false
tool_typed_column tool_call (some _) = true
tool_typed_column tool_result (some _) = true
tool_typed_column _ none = true
tool_typed_column _ (some _) = false

-- Field access on the pydantic objects, as the values that a path reaches.
module _ {F : Type 0} where
  abbrev pub strings : List String → Items F
  strings [] = nil
  strings (s ∷ ss) = cons (str s) (strings ss)

  abbrev pub opt_str : Option String → Value F
  opt_str none = null
  opt_str (some s) = str s

  abbrev pub usage_value : TokenUsage → Value F
  usage_value u = model "TokenUsage" (
      entry "input" (int u.input) (
        entry "output" (int u.output)
          (entry "cache_read" (int u.cache_read) (entry "cache_write" (int u.cache_write) end))))

  abbrev pub cost_value : Option (CostBlock F) → Value F
  cost_value none = null
  cost_value (some c) = model "CostBlock" (
      entry "tokens" (usage_value c.tokens) (
        entry "cost_usd" (float c.cost_usd)
          (entry "currency" (str c.currency) (entry "price_version" (str c.price_version) end))))

  abbrev pub redaction_value : RedactionState → Value F
  redaction_value r =
      model "RedactionState"
        (entry "status" (str r.status) (entry "rules" (list (strings r.rules)) end))

  abbrev pub payload_value : Option (Entries F) → Value F
  payload_value none = null
  payload_value (some es) = dict es
