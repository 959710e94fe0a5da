-- ===== src/Tool.antt =====
-- core/schema/tool.py: tools, their calls, and the decisions about them.
pub mod Register
pub mod Manager
pub mod PolicyStore
pub mod Safety
use evernight_ai.Prelude.{
  ℕ, zero, suc, ◌+◌, ◌-◌, ◌*◌, ◌/◌, ◌≤◌, ◌<◌, max, String, ◌≡◌, refl, sym, ap, ◌∙◌, ◌≢◌, ◌↔◌, ◌⊎◌,
  inl, inr, Bool, true, false, not, ◌&&◌, ◌||◌, Option, none, some, List, [], ◌∷◌, ◌++◌, map,
  reverse, arith, eq_iff, ltb, leb, eqb, if◌then◌else◌, text_ltb, Eq, ◌==◌, nat_eq, string_eq,
  option_eq, pair_eq, Bool-cases, Option-cases, is_some, or_else, when, length, keep, any, all,
  take, drop, get_elem?, All, length-append, length-keep-le, length-take, All-append, All-keep,
  All-take, keep_sound, Result, ok, err, Error, ◌>>=◌, ◌>>◌, require, >>=-eq-ok,
}
use evernight_ai.Dict.{Dict}
use evernight_ai.Value.{Value}

pub data ToolPermission : Type 0 where
  read write process network filesystem shell database external_api destructive : ToolPermission

unfoldable pub ToolPermission-discrete : Discrete ToolPermission
ToolPermission-discrete = hlevel

pub data ToolSafetyLevel : Type 0 where
  safe sensitive restricted : ToolSafetyLevel

pub data ToolApprovalStatus : Type 0 where
  requested approved denied expired : ToolApprovalStatus

pub data ToolApprovalMode : Type 0 where
  auto required never : ToolApprovalMode

pub data ToolAccessMode : Type 0 where
  allow ask deny : ToolAccessMode

pub data ToolReplayPolicy : Type 0 where
  safe idempotent non_replayable : ToolReplayPolicy

-- `StrEnum` values, where the code prints or sorts them.
unfoldable pub permission_value : ToolPermission → String
permission_value read = "read"
permission_value write = "write"
permission_value process = "process"
permission_value network = "network"
permission_value filesystem = "filesystem"
permission_value shell = "shell"
permission_value database = "database"
permission_value external_api = "external_api"
permission_value destructive = "destructive"

unfoldable pub approval_status_value : ToolApprovalStatus → String
approval_status_value requested = "requested"
approval_status_value approved = "approved"
approval_status_value denied = "denied"
approval_status_value expired = "expired"

-- `ToolDefinition`; the parameters' schema is only handed on.
pub record ToolDefinition : Type 0 where
  pub name : String
  pub description : String
  pub parameters_schema : Option Value
  pub permissions : List ToolPermission
  pub safety_level : ToolSafetyLevel
  pub requires_approval : Bool
  pub approval_mode : ToolApprovalMode
  pub replay_policy : ToolReplayPolicy
  pub idempotency_key_parameter : Option String
  pub metadata : Dict String Value

pub record ToolApprovalRequest : Type 0 where
  pub approval_id : String
  pub tool_call_id : String
  pub tool_name : String
  pub tool_call : Dict String Value
  pub permissions : List ToolPermission
  pub safety_level : ToolSafetyLevel
  pub reason : Option String
  pub metadata : Dict String Value

pub record ToolApprovalDecision : Type 0 where
  pub approval_id : String
  pub tool_call_id : String
  pub status : ToolApprovalStatus
  pub tool_round : Option ℕ
  pub reason : Option String
  pub metadata : Dict String Value

pub record ToolCall : Type 0 where
  pub tool_call_id : String
  pub tool_call : Dict String Value
  pub approval : Option ToolApprovalDecision
  pub metadata : Dict String Value

pub record ToolCallResult : Type 0 where
  pub tool_call_id : String
  pub tool_call_result : Dict String Value

pub record ToolSafetyDecision : Type 0 where
  pub allowed : Bool
  pub reason : Option String
  pub requires_approval : Bool
  pub approval_request : Option ToolApprovalRequest
  pub metadata : Dict String Value

pub record ToolPolicySummary : Type 0 where
  pub tool : ToolDefinition
  pub mode : ToolAccessMode
  pub default_mode : ToolAccessMode
  pub configured_mode : Option ToolAccessMode
  pub blocked_reason : Option String

accepts_key : ToolReplayPolicy → Option String → Bool
accepts_key idempotent none = false
accepts_key idempotent (some k) = not (k == "")
accepts_key safe key = true
accepts_key non_replayable key = true

-- `ToolDefinition.validate_replay_policy`: whether the definition is accepted.
unfoldable pub valid_replay_policy : ToolDefinition → Bool
unfolding accepts_key
valid_replay_policy t = accepts_key t.replay_policy t.idempotency_key_parameter
