-- ===== src/Tests/Tools.antt =====
-- Calls of tools, at concrete inputs.
use evernight_ai.Prelude.{
  String, ◌≡◌, refl, ◌↔◌, true, false, none, some, List, [], ◌∷◌, nat_eq, string_eq, option_eq,
  pair_eq, ok,
}
use evernight_ai.Dict.{Dict, lookup}
use evernight_ai.Value.{Value, Fields, dict, truthy, truthy_at, as_text}
use evernight_ai.Auth.{PrincipalScope}
use evernight_ai.Tool.{
  ToolPermission-discrete, ToolPermission, ToolAccessMode, ToolApprovalMode, ToolSafetyLevel,
  ToolReplayPolicy, ToolDefinition, ToolCall, ToolSafetyDecision,
}
use evernight_ai.Tool.Register
use evernight_ai.Tool.Register.{
  Snapshot, Registration, Executor, returned, put, has, set_preflight, empty_snapshot, registers,
}
use evernight_ai.Tool.PolicyStore.{Policies, get_mode, set_mode}
use evernight_ai.Tool.Safety
use evernight_ai.Tool.Safety.{
  permission_eq, BasicToolSafetyPolicy, basic_policy, meet, needs_approval, is_refused, is_approved,
}
use evernight_ai.Tool.Safety.Gate.{Disjoint, authorize_exact}
use evernight_ai.Tool.Manager.{
  Manager, with_basic_policy, tool_name_of, authorize, execute, decision_mode, policy_summary,
  effective_definition, call_scope, execution_arguments, arguments_of,
}
use evernight_ai.Tool.Manager.Gate.{Steps, execute_exact}
use evernight_ai.Tool.Manager.Allowed.{
  is_deny, Cleared, preflight_of, authorize_allowed, blocked_never_runs,
}
use evernight_ai.Tool.Manager.Modes.{policy_summary-authorize}

abbrev pub tool_with : String → List ToolPermission → ToolDefinition
tool_with name permissions = record {
  name = name;
  description = "";
  parameters_schema = none;
  permissions = permissions;
  safety_level = ToolSafetyLevel.safe;
  requires_approval = false;
  approval_mode = ToolApprovalMode.auto;
  replay_policy = ToolReplayPolicy.non_replayable;
  idempotency_key_parameter = none;
  metadata = [];
}

abbrev pub read_tool : ToolDefinition
read_tool = tool_with "read" (ToolPermission.read ∷ [])

abbrev write_tool : ToolDefinition
write_tool = tool_with "write" (ToolPermission.write ∷ [])

abbrev shell_tool : ToolDefinition
shell_tool = tool_with "shell" (ToolPermission.shell ∷ [])

abbrev pub echo : Executor
echo = λ args. returned (dict Fields.end)

abbrev register_of : ToolDefinition → Snapshot
register_of tool = record {
  tools = (tool.name, tool) ∷ [];
  executors = (tool.name, echo) ∷ [];
  preflight_policies = [];
  source_owners = [];
}

abbrev call_of : String → ToolCall
call_of name = record {
  tool_call_id = "c1";
  tool_call = ("name", Value.text name) ∷ [];
  approval = none;
  metadata = ("owner_id", Value.text "ann") ∷ [];
}

abbrev default_policy : BasicToolSafetyPolicy
default_policy = record {
  blocked_permissions = ToolPermission.shell ∷ ToolPermission.destructive ∷ [];
  approval_required_permissions = ToolPermission.write ∷ [];
}

abbrev ann : PrincipalScope
ann = record { owner_id = some "ann" }

abbrev manager_of : ToolDefinition → Policies → Manager
manager_of tool policies = with_basic_policy (register_of tool) policies default_policy

abbrev denies : Policies
denies = ((some "ann", "read"), ToolAccessMode.deny) ∷ []

blocked_never_runs_example : (execute (manager_of shell_tool []) (call_of "shell")).0 ≡ []
unfolding tool_name_of Register.get Register.has truthy as_text ToolPermission-discrete
blocked_never_runs_example =
    blocked_never_runs (register_of shell_tool) [] default_policy (call_of "shell") "shell"
      shell_tool refl refl refl

execute_exact_example :
    ((args : Dict String Value) × ((execute (manager_of read_tool []) (call_of "read")).0
        ≡ args ∷ []))
    ↔ ((d : ToolSafetyDecision) × (authorize (manager_of read_tool []) (call_of "read") ≡ ok d)
        × (d.allowed ≡ true))
execute_exact_example = execute_exact (manager_of read_tool []) (call_of "read")

abbrev shell_decision : ToolSafetyDecision
shell_decision = Safety.authorize default_policy shell_tool (call_of "shell")

abbrev read_decision : ToolSafetyDecision
read_decision = Safety.authorize default_policy read_tool (call_of "read")

authorize_allowed_example :
    (s : Steps (manager_of read_tool []) (call_of "read") read_decision) × let mode =
        get_mode [] s.name (some s.scope) in
      let effective = effective_definition s.tool mode in
      (is_deny mode ≡ false)
      × Disjoint s.tool.permissions default_policy.blocked_permissions
      × (is_refused (call_of "read") ≡ false)
      × (needs_approval default_policy effective ≡ true → is_approved (call_of "read") ≡ true)
      × Cleared (call_of "read") (preflight_of (manager_of read_tool []) s.name effective s.args)
unfolding authorize Safety.authorize ToolPermission-discrete
authorize_allowed_example =
    authorize_allowed (register_of read_tool) [] default_policy (call_of "read") read_decision refl
      refl

authorize_exact_example :
    ((Safety.authorize default_policy shell_tool (call_of "shell")).allowed ≡ true) ↔ (
      Disjoint shell_tool.permissions default_policy.blocked_permissions
      × (is_refused (call_of "shell") ≡ false)
      × (needs_approval default_policy shell_tool ≡ true → is_approved (call_of "shell") ≡ true))
authorize_exact_example = authorize_exact default_policy shell_tool (call_of "shell")

policy_summary-authorize_example :
    (d : ToolSafetyDecision) × (authorize (manager_of write_tool []) (call_of "write") ≡ ok d)
    × (decision_mode d ≡ (policy_summary (manager_of write_tool []) write_tool (some ann)).mode)
unfolding Register.get Register.has lookup tool_name_of truthy_at as_text call_scope
    execution_arguments arguments_of is_refused is_approved
policy_summary-authorize_example =
    policy_summary-authorize (register_of write_tool) [] default_policy write_tool (call_of "write")
      [] ann refl refl refl refl refl (refl, refl)

abbrev echo_read : Registration
echo_read = record { tool = read_tool; executor = echo; preflight_policy = none }

abbrev started : Manager
started =
    with_basic_policy (Register.run (registers echo_read ∷ []) empty_snapshot) [] default_policy

abbrev denied : Manager
denied = record started { policies = set_mode [] "read" ToolAccessMode.deny (some ann) }

abbrev bob : PrincipalScope
bob = record { owner_id = some "bob" }

abbrev bob_denied : Manager
bob_denied = record started { policies = set_mode [] "read" ToolAccessMode.deny (some bob) }

-- A run: the executor of an allowed tool is called once.
read_runs :
    execute (manager_of read_tool []) (call_of "read")
    ≡ ([] ∷ [], ok (record { tool_call_id = "c1"; tool_call_result = [] }))
unfolding execute Safety.authorize ToolPermission-discrete
read_runs = refl
