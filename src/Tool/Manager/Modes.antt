-- ===== src/Tool/Manager/Modes.antt =====
-- What the access modes that owners set do.
use evernight_ai.Prelude.{
  String, ◌≡◌, refl, inl, inr, false, Option, none, some, [], arith, eq_iff, ◌==◌, nat_eq,
  string_eq, option_eq, pair_eq, Bool-cases, length, ok, >>=-eq-ok, Result-cases, ok-injective,
}
use mathlib.Core.Path.{subst}
use evernight_ai.Dict.{Dict, lookup}
use evernight_ai.Value.{Value}
use evernight_ai.Auth.{PrincipalScope}
use evernight_ai.Tool.{
  ToolAccessMode, ToolDefinition, ToolCall, ToolSafetyDecision, ToolPolicySummary,
}
use evernight_ai.Tool.Safety
use evernight_ai.Tool.Safety.{BasicToolSafetyPolicy, meet, needs_approval, is_refused, is_approved}
use evernight_ai.Tool.Register.{Snapshot, get, get_preflight_policy}
use evernight_ai.Tool.PolicyStore.{
  Policies, policy_key, get_mode, set_mode, get_mode-set_mode, get_mode-delete_mode,
}
use evernight_ai.Tool.Manager.{
  Manager, with_basic_policy, tool_name_of, execution_arguments, call_scope, after_preflight,
  decide, authorize, execute, decision_mode, preview_call, policy_summary, set_tool_policy,
  set_or_delete,
}
use evernight_ai.Tool.Register.Consistency.{IsConsistent}
use evernight_ai.Tool.Manager.Allowed.{denied_never_runs}

-- A call that nobody has approved or refused.
abbrev pub IsUndecided : ToolCall → Type 0
IsUndecided call = (is_refused call ≡ false) × (is_approved call ≡ false)

preview_call-IsUndecided :
    (tool : ToolDefinition) (scope : Option PrincipalScope) → IsUndecided (preview_call tool scope)
unfolding is_refused is_approved preview_call lookup
preview_call-IsUndecided tool scope = (refl, refl)

-- The basic policy gives such calls of a tool the same mode.
undecided_mode :
    (policy : BasicToolSafetyPolicy) (tool : ToolDefinition) (a b : ToolCall)
    → IsUndecided a
    → IsUndecided b
    → decision_mode (Safety.authorize policy tool a)
      ≡ decision_mode (Safety.authorize policy tool b)
unfolding Safety.authorize decision_mode
undecided_mode policy tool a b h k =
    elim (Bool-cases (length (meet tool.permissions policy.blocked_permissions) == 0)) [
      | inr p ↦ rw p refl
      | inl p ↦ elim (Bool-cases (needs_approval policy tool)) [
        | inl q ↦ rw (p, h.0, h.1, k.0, k.1, q) refl
        | inr q ↦ rw (p, h.0, h.1, k.0, k.1, q) refl
      ]
    ]

module _ (register : Snapshot) (policies : Policies) (policy : BasicToolSafetyPolicy) where
  abbrev manager : Manager
  manager = with_basic_policy register policies policy

  decide_mode :
      (tool : ToolDefinition) (call : ToolCall) (args : Dict String Value) (scope : PrincipalScope)
      (mode : Option ToolAccessMode)
      → tool_name_of call.tool_call ≡ ok tool.name
      → get register tool.name ≡ ok tool
      → lookup tool.name register.preflight_policies ≡ none
      → IsUndecided call
      → get_mode policies tool.name (some scope) ≡ mode
      → (d : ToolSafetyDecision) × (decide manager tool call args mode ≡ ok d)
        × (decision_mode d ≡ (policy_summary manager tool (some scope)).mode)
  unfolding decide get_preflight_policy after_preflight policy_summary
  decide_mode tool call args scope (some ToolAccessMode.deny) n g p u e = (_, refl, rw e refl)
  decide_mode tool call args scope none n g p u e =
      rw (n, g, p, e)
        (
          _,
          refl,
          undecided_mode policy _ call (preview_call tool (some scope)) u
              (preview_call-IsUndecided tool (some scope)),
        )
  decide_mode tool call args scope (some ToolAccessMode.allow) n g p u e =
      rw (n, g, p, e)
        (
          _,
          refl,
          undecided_mode policy _ call (preview_call tool (some scope)) u
              (preview_call-IsUndecided tool (some scope)),
        )
  decide_mode tool call args scope (some ToolAccessMode.ask) n g p u e =
      rw (n, g, p, e)
        (
          _,
          refl,
          undecided_mode policy _ call (preview_call tool (some scope)) u
              (preview_call-IsUndecided tool (some scope)),
        )

-- With the basic safety policy, for a tool that is registered under its name and has no preflight
-- policy, the mode that the policy list shows an owner is the mode of the decision that `authorize`
-- returns on every call of this owner that names the tool, has arguments that the manager can read,
-- and that nobody has approved or refused.
pub policy_summary-authorize :
    (register : Snapshot) (policies : Policies) (policy : BasicToolSafetyPolicy)
    (tool : ToolDefinition) (call : ToolCall) (args : Dict String Value) (scope : PrincipalScope)
    → get register tool.name ≡ ok tool
    → lookup tool.name register.preflight_policies ≡ none
    → tool_name_of call.tool_call ≡ ok tool.name
    → call_scope call ≡ ok scope
    → execution_arguments register call ≡ ok args
    → IsUndecided call
    → let m = with_basic_policy register policies policy in
      (d : ToolSafetyDecision) × (authorize m call ≡ ok d)
      × (decision_mode d ≡ (policy_summary m tool (some scope)).mode)
unfolding authorize
policy_summary-authorize register policies policy tool call args scope g p n c a u =
    let (d, h, k) =
      decide_mode register policies policy tool call args scope
        (get_mode policies tool.name (some scope)) n g p u refl in
    (d, rw (a, n, g, c) h, k)

get_mode_set :
    (d : Policies) (name : String) (mode : ToolAccessMode) (scope : Option PrincipalScope)
    → get_mode (set_mode d name mode scope) name scope ≡ some mode
get_mode_set d name mode scope = ground (
  arith,
  get_mode-set_mode d name name mode scope scope,
  (pair_eq {A = Option String} {B = String}).beq_iff (policy_key name scope)
      (policy_key name scope),
)

stored_name :
    (s : Snapshot) (name : String) (tool : ToolDefinition)
    → IsConsistent s
    → get s name ≡ ok tool
    → tool.name ≡ name
unfolding get
stored_name s name tool i h =
    let (a, b, c, d) = i.consistent_at name in ground (arith, d, h, eq_iff tool.name name)

-- Once an owner sets a tool of a consistent register to DENY, the policy list shows DENY and no
-- executor runs on the owner's calls of the tool.
pub set_deny_never_runs :
    (m m' : Manager) (name : String) (scope : PrincipalScope) (s : ToolPolicySummary)
    (call : ToolCall)
    → IsConsistent m.register
    → set_tool_policy m name (some ToolAccessMode.deny) (some scope) ≡ ok (m', s)
    → tool_name_of call.tool_call ≡ ok name
    → call_scope call ≡ ok scope
    → (s.mode ≡ ToolAccessMode.deny) × ((execute m' call).0 ≡ [])
unfolding set_tool_policy set_or_delete
set_deny_never_runs m m' name scope s call i h n c =
    let (tool, t, k) = >>=-eq-ok (get m.register name) _ h in
    let m1 = record m { policies = set_mode m.policies name ToolAccessMode.deny (some scope) } in
    let denied = get_mode_set m.policies name ToolAccessMode.deny (some scope) in
    let shown : (policy_summary m1 tool (some scope)).mode ≡ ToolAccessMode.deny =
      unfold policy_summary in rw (stored_name m.register name tool i t, denied) refl in
    subst
      (λ (p : Manager × ToolPolicySummary).
        (p.1.mode ≡ ToolAccessMode.deny) × ((execute p.0 call).0 ≡ []))
      (ok-injective k) (shown, denied_never_runs m1 call name scope n c denied)

decide_policies :
    (m : Manager) (d : Policies) (tool : ToolDefinition) (call : ToolCall)
    (args : Dict String Value) (mode : Option ToolAccessMode)
    → decide (record m { policies = d }) tool call args mode ≡ decide m tool call args mode
unfolding decide
decide_policies m d tool call args none = refl
decide_policies m d tool call args (some ToolAccessMode.allow) = refl
decide_policies m d tool call args (some ToolAccessMode.ask) = refl
decide_policies m d tool call args (some ToolAccessMode.deny) = refl

authorize_policies :
    (m : Manager) (d : Policies) (call : ToolCall) (name : String) (caller : PrincipalScope)
    → tool_name_of call.tool_call ≡ ok name
    → call_scope call ≡ ok caller
    → get_mode d name (some caller) ≡ get_mode m.policies name (some caller)
    → authorize (record m { policies = d }) call ≡ authorize m call
unfolding authorize
authorize_policies m d call name caller n c e =
    elim (Result-cases (execution_arguments m.register call)) [
      | inr (x, a) ↦ rw (a, n) refl
      | inl (args, a) ↦ elim (Result-cases (get m.register name)) [
        | inr (x, t) ↦ rw (a, n, t) refl
        | inl (tool, t) ↦ rw (a, n, t, c, e) (decide_policies m d tool call args _)
      ]
    ]

other_mode :
    (d : Policies) (name other : String) (mode : Option ToolAccessMode)
    (scope : Option PrincipalScope) (caller : PrincipalScope)
    → (policy_key name scope == policy_key other (some caller)) ≡ false
    → get_mode (set_or_delete d name mode scope) other (some caller)
      ≡ get_mode d other (some caller)
unfolding set_or_delete
other_mode d name other none scope caller k =
    ground (arith, k, get_mode-delete_mode d name other scope (some caller))
other_mode d name other (some mode) scope caller k =
    ground (arith, k, get_mode-set_mode d name other mode scope (some caller))

-- What one owner sets for one tool changes no decision on a call of another owner or of another
-- tool.
pub set_tool_policy_other :
    (m m' : Manager) (name : String) (mode : Option ToolAccessMode) (scope : Option PrincipalScope)
    (s : ToolPolicySummary) (call : ToolCall) (other : String) (caller : PrincipalScope)
    → set_tool_policy m name mode scope ≡ ok (m', s)
    → tool_name_of call.tool_call ≡ ok other
    → call_scope call ≡ ok caller
    → (policy_key name scope == policy_key other (some caller)) ≡ false
    → authorize m' call ≡ authorize m call
unfolding set_tool_policy
set_tool_policy_other m m' name mode scope s call other caller h n c k =
    let (tool, t, e) = >>=-eq-ok (get m.register name) _ h in
    let d = set_or_delete m.policies name mode scope in
    subst (λ (p : Manager × ToolPolicySummary). authorize p.0 call ≡ authorize m call)
      (ok-injective e)
      (authorize_policies m d call other caller n c
        (other_mode m.policies name other mode scope caller k))
