-- ===== src/Tool/Manager.antt =====
-- `ToolManager` of core/domain/tool.py: which calls may run, and how they run.
pub mod Gate
pub mod Allowed
pub mod Modes
use evernight_ai.Prelude.{
  ℕ, zero, suc, ◌+◌, ◌-◌, ◌*◌, ◌/◌, ◌≤◌, ◌<◌, max, String, ◌≡◌, refl, sym, ap, ◌∙◌, ◌≢◌, ◌↔◌, ◌⊎◌,
  inl, inr, Bool, true, false, not, ◌&&◌, ◌||◌, Option, none, some, List, [], ◌∷◌, ◌++◌, map,
  reverse, arith, eq_iff, ltb, leb, eqb, if◌then◌else◌, text_ltb, Eq, ◌==◌, nat_eq, nat_beq_iff,
  string_eq, option_eq, pair_eq, discrete_eq, Bool-cases, Option-cases, is_some, or_else, when,
  text_ltb_asym, text_le_trans, length, keep, any, all, take, drop, get_elem?, All, length-append,
  length-keep-le, length-take, All-append, All-behind, All-keep, All-take, keep_sound, keep-append,
  keep_none, length-drop-le, All-keep_both, All-map, Result, ok, err, Error, ◌>>=◌, ◌>>◌, require,
  >>=-eq-ok, Result-cases,
}
use mathlib.Core.Option
use evernight_ai.Dict.{Dict, lookup, insert, erase}
use evernight_ai.Value.{
  Value, Fields, null, dict, truthy_at, as_text, entries, from_entries, from_text,
}
use evernight_ai.Auth.{PrincipalScope}
use evernight_ai.Tool.{
  ToolAccessMode, ToolApprovalMode, ToolApprovalStatus, ToolApprovalDecision, ToolApprovalRequest,
  ToolDefinition, ToolCall, ToolCallResult, ToolSafetyDecision, ToolPolicySummary,
}
use evernight_ai.Tool.Register.{
  Outcome, returned, tool_failed, raised, Executor, Snapshot, get, get_executor,
  get_preflight_policy, list_tools,
}
use evernight_ai.Tool.PolicyStore.{Policies, get_mode, set_mode, delete_mode}
use evernight_ai.Tool.Safety
use evernight_ai.Tool.Safety.{not_null, BasicToolSafetyPolicy}

-- What the manager holds; the safety policy is an object behind a protocol.
pub record Manager : Type 0 where
  pub register : Snapshot
  pub policies : Policies
  pub safety : ToolDefinition → ToolCall → ToolSafetyDecision

-- `ToolManager.__init__` with a `BasicToolSafetyPolicy`.
abbrev pub with_basic_policy : Snapshot → Policies → BasicToolSafetyPolicy → Manager
with_basic_policy register policies policy = record {
  register = register;
  policies = policies;
  safety = Safety.authorize policy;
}

text_value : Option Value → Option String
unfolding as_text
text_value none = none
text_value (some v) = as_text v

-- `_get_tool_name`
unfoldable pub tool_name_of : Dict String Value → Result String
unfolding text_value truthy_at lookup
tool_name_of call =
    let first = lookup "tool_name" call in
    let name = text_value (if truthy_at first then first else lookup "name" call) in
    elim name [
      | none ↦ err Error.tool_input
      | some n ↦ if n == "" then err Error.tool_input else ok n
    ]

-- `_get_arguments`
unfoldable pub arguments_of : Dict String Value → Result (Dict String Value)
unfolding lookup entries
arguments_of call =
    let v = or_else (lookup "arguments" call) (or_else (lookup "args" call) (dict Fields.end)) in
    elim v [ dict fs ↦ ok (entries fs) | _ ↦ err Error.tool_input ]

-- `d.get(k)` as a value.
at : String → Dict String Value → Value
unfolding lookup
at k d = or_else (lookup k d) null

-- The arguments with the execution context, if the tool supports one.
with_context : ToolDefinition → ToolCall → Dict String Value → Dict String Value
unfolding lookup insert erase truthy_at from_entries at
with_context tool call args =
    let context = dict (
      from_entries (
        ("owner_id", at "owner_id" call.metadata)
        ∷ ("session_id", at "session_id" call.metadata)
        ∷ ("run_id", at "run_id" call.metadata)
        ∷ ("tool_call_id", Value.text call.tool_call_id)
        ∷ [])) in
    if truthy_at (lookup "supports_execution_context" tool.metadata)
    then erase "_idempotency_key" (insert "_execution_context" context args)
    else args

set_directory : Option Value → Dict String Value → Dict String Value
unfolding insert
set_directory none args = args
set_directory (some v) args = insert "_working_directory" v args

-- The arguments with the caller's working directory, if the tool supports one; what the model wrote
-- there is dropped.
with_working_directory : ToolDefinition → ToolCall → Dict String Value → Dict String Value
unfolding lookup erase truthy_at not_null set_directory
with_working_directory tool call args =
    if truthy_at (lookup "supports_working_directory" tool.metadata)
    then set_directory (not_null (lookup "working_directory" call.metadata))
        (erase "_working_directory" args)
    else args

-- `_execution_arguments`
unfoldable pub execution_arguments : Snapshot → ToolCall → Result (Dict String Value)
unfolding arguments_of tool_name_of get with_context with_working_directory
execution_arguments register call = arguments_of call.tool_call >>= λ args.
    tool_name_of call.tool_call >>= λ name. get register name >>= λ tool.
    ok (with_working_directory tool call (with_context tool call args))

-- `_effective_definition`
unfoldable pub effective_definition : ToolDefinition → Option ToolAccessMode → ToolDefinition
effective_definition tool none = tool
effective_definition tool (some ToolAccessMode.deny) = tool
effective_definition tool (some ToolAccessMode.allow) = record tool {
  approval_mode = ToolApprovalMode.never;
  requires_approval = false;
}
effective_definition tool (some ToolAccessMode.ask) = record tool {
  approval_mode = ToolApprovalMode.required;
  requires_approval = true;
}

-- `PrincipalScope(owner_id=...)`, which takes a text or `None`.
unfoldable pub call_scope : ToolCall → Result PrincipalScope
unfolding at lookup
call_scope call = elim (at "owner_id" call.metadata) [
  | null ↦ ok (record { owner_id = none })
  | Value.text s ↦ ok (record { owner_id = some s })
  | _ ↦ err Error.value_error
]

-- `metadata.update(other)`
update : Dict String Value → Dict String Value → Dict String Value
unfolding insert
update [] d = d
update ((k, v) ∷ e) d = update e (insert k v d)

-- The approval request with the preflight's reason and metadata.
explain : ToolSafetyDecision → ToolApprovalRequest → ToolApprovalRequest
unfolding update
explain preflight r = record r {
  reason = preflight.reason;
  metadata = update preflight.metadata r.metadata;
}

is_open : Option ToolApprovalDecision → Bool
is_open none = true
is_open (some a) = elim a.status [ ToolApprovalStatus.requested ↦ true | _ ↦ false ]

-- The decision on a call that the preflight policy wants approved.
unfoldable pub explained : ToolSafetyDecision → ToolCall → ToolSafetyDecision → ToolSafetyDecision
unfolding explain is_open
explained preflight call d =
    let request = Option.map (explain preflight) d.approval_request in
    if not d.allowed && (d.requires_approval && is_open call.approval)
    then record d { approval_request = request; reason = preflight.reason }
    else record d { approval_request = request }

module _ (safety : ToolDefinition → ToolCall → ToolSafetyDecision) where
  -- What `authorize` does with the decision of the preflight policy.
  unfoldable pub after_preflight :
      ToolDefinition → ToolCall → Option ToolSafetyDecision → ToolSafetyDecision
  unfolding effective_definition explained
  after_preflight tool call none = safety tool call
  after_preflight tool call (some preflight) =
      if preflight.allowed
      then safety tool call
      else if not preflight.requires_approval
      then preflight
      else explained preflight call
          (safety (effective_definition tool (some ToolAccessMode.ask)) call)

-- The rest of `authorize`, once tool, arguments and mode are known.
unfoldable pub decide :
    Manager
    → ToolDefinition
    → ToolCall
    → Dict String Value
    → Option ToolAccessMode
    → Result ToolSafetyDecision
unfolding after_preflight effective_definition get_preflight_policy tool_name_of
decide m tool call args (some ToolAccessMode.deny) = ok (record {
  allowed = false;
  reason = some "Tool is disabled by your tool policy";
  requires_approval = false;
  approval_request = none;
  metadata = [];
})
decide m tool call args mode =
    let effective = effective_definition tool mode in
    tool_name_of call.tool_call >>= λ name. get_preflight_policy m.register name >>= λ policy. ok (
      after_preflight m.safety effective call
        (elim policy [ none ↦ none | some p ↦ p effective args ]))

-- `ToolManager.authorize`
unfoldable pub authorize : Manager → ToolCall → Result ToolSafetyDecision
unfolding tool_name_of execution_arguments get call_scope get_mode decide
authorize m call = tool_name_of call.tool_call >>= λ name.
    execution_arguments m.register call >>= λ args. get m.register name >>= λ tool.
    call_scope call >>= λ scope. decide m tool call args (get_mode m.policies name (some scope))

set_key : Option String → Option String → Dict String Value → Dict String Value
unfolding insert
set_key (some parameter) (some key) args =
    if key == "" then args else insert parameter (Value.text key) args
set_key parameter key args = args

-- The arguments with the idempotency key of the call, where the tool takes one.
with_key : ToolDefinition → ToolCall → Dict String Value → Dict String Value
unfolding set_key text_value lookup
with_key tool call args =
    set_key tool.idempotency_key_parameter (text_value (lookup "idempotency_key" call.metadata))
      args

-- `execute` up to the executor: the executor and the arguments it is called with.
unfoldable pub prepare : Manager → ToolCall → Result (Executor × Dict String Value)
unfolding tool_name_of execution_arguments authorize get get_executor with_key
prepare m call = tool_name_of call.tool_call >>= λ name.
    execution_arguments m.register call >>= λ args. authorize m call >>= λ decision.
    require decision.allowed (Error.tool_policy decision.reason)
    >> (get m.register name >>= λ tool.
        get_executor m.register name >>= λ executor. ok (executor, with_key tool call args))

-- `execute` behind the executor, with `_validate_result`. A dictionary that has a key which is no
-- text is one of the values that the model does not look into.
finish : ToolCall → Outcome → Result ToolCallResult
unfolding entries
finish call (returned (dict fs)) =
    ok (record { tool_call_id = call.tool_call_id; tool_call_result = entries fs })
finish call (returned v) = err Error.tool_result
finish call tool_failed = err Error.tool_execution
finish call raised = err Error.tool_execution

-- `ToolManager.execute`, with the arguments of every invocation of an executor.
unfoldable pub execute : Manager → ToolCall → List (Dict String Value) × Result ToolCallResult
unfolding prepare finish
execute m call = elim (prepare m call) [
  | err e ↦ ([], err e)
  | ok (executor, args) ↦ (args ∷ [], finish call (executor args))
]

-- `_decision_mode`
unfoldable pub decision_mode : ToolSafetyDecision → ToolAccessMode
decision_mode d =
    if d.allowed
    then ToolAccessMode.allow
    else if d.requires_approval
    then ToolAccessMode.ask
    else ToolAccessMode.deny

unfoldable pub owner_value : Option PrincipalScope → Value
unfolding from_text
owner_value none = null
owner_value (some scope) = from_text scope.owner_id

-- The call that stands for any call in `_policy_summary`.
unfoldable pub preview_call : ToolDefinition → Option PrincipalScope → ToolCall
unfolding owner_value
preview_call tool scope = record {
  tool_call_id = "policy-preview";
  tool_call = ("name", Value.text tool.name) ∷ ("arguments", dict Fields.end) ∷ [];
  approval = none;
  metadata = ("owner_id", owner_value scope) ∷ [];
}

mode_shown : Option ToolAccessMode → ToolAccessMode → ToolAccessMode
mode_shown (some ToolAccessMode.deny) mode = ToolAccessMode.deny
mode_shown configured mode = mode

-- `_policy_summary`
unfoldable pub policy_summary : Manager → ToolDefinition → Option PrincipalScope → ToolPolicySummary
unfolding get_mode preview_call effective_definition decision_mode mode_shown
policy_summary m tool scope =
    let configured = get_mode m.policies tool.name scope in
    let call = preview_call tool scope in
    let effective = m.safety (effective_definition tool configured) call in
    record {
      tool = tool;
      mode = mode_shown configured (decision_mode effective);
      default_mode = decision_mode (m.safety tool call);
      configured_mode = configured;
      blocked_reason =
          if not effective.allowed && not effective.requires_approval
          then effective.reason
          else none;
    }

-- `ToolManager.list_tool_policies`
unfoldable pub list_tool_policies : Manager → Option PrincipalScope → List ToolPolicySummary
unfolding policy_summary list_tools
list_tool_policies m scope = map (λ tool. policy_summary m tool scope) (list_tools m.register)

-- The loop of `ToolManager.list_tools`.
offered : List ToolPolicySummary → List ToolDefinition
unfolding effective_definition
offered [] = []
offered (p ∷ ps) =
    let rest = offered ps in
    let tool = effective_definition p.tool p.configured_mode in
    elim p.mode [
      | ToolAccessMode.deny ↦ rest
      | ToolAccessMode.ask ↦ record tool { requires_approval = true } ∷ rest
      | ToolAccessMode.allow ↦ record tool { requires_approval = false } ∷ rest
    ]

-- `ToolManager.list_tools`
unfoldable pub offered_tools : Manager → Option PrincipalScope → List ToolDefinition
unfolding offered list_tool_policies
offered_tools m scope = offered (list_tool_policies m scope)

unfoldable pub set_or_delete :
    Policies → String → Option ToolAccessMode → Option PrincipalScope → Policies
unfolding set_mode delete_mode
set_or_delete d name none scope = delete_mode d name scope
set_or_delete d name (some mode) scope = set_mode d name mode scope

-- `ToolManager.set_tool_policy`
unfoldable pub set_tool_policy :
    Manager
    → String
    → Option ToolAccessMode
    → Option PrincipalScope
    → Result (Manager × ToolPolicySummary)
unfolding get set_or_delete policy_summary
set_tool_policy m name mode scope = get m.register name >>= λ tool.
    let m' = record m { policies = set_or_delete m.policies name mode scope } in
    ok (m', policy_summary m' tool scope)
