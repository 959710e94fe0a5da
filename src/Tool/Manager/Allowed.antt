-- ===== src/Tool/Manager/Allowed.antt =====
-- What an allowing decision of the manager says, under the basic safety policy.
use evernight_ai.Prelude.{
  String, ◌≡◌, refl, sym, ap, ◌∙◌, inl, inr, Bool, true, false, Option, none, some, List, [], ◌∷◌,
  arith, ◌==◌, nat_eq, string_eq, option_eq, pair_eq, Bool-cases, any, ok, Result-cases,
  ok-injective,
}
use mathlib.Core.Path.{subst}
use evernight_ai.Dict.{Dict, lookup}
use evernight_ai.Value.{Value}
use evernight_ai.Auth.{PrincipalScope}
use evernight_ai.Tool.{ToolPermission, ToolAccessMode, ToolDefinition, ToolCall, ToolSafetyDecision}
use evernight_ai.Tool.Register.{Snapshot, get, get_preflight_policy}
use evernight_ai.Tool.PolicyStore.{Policies, get_mode}
use evernight_ai.Tool.Safety
use evernight_ai.Tool.Safety.{
  permission_eq, BasicToolSafetyPolicy, meet, needs_approval, is_refused, is_approved,
}
use evernight_ai.Tool.Safety.Gate.{Disjoint, authorize_exact}
use evernight_ai.Tool.Manager.Gate.{Steps, authorize-Steps, authorized}
use evernight_ai.Tool.Manager.{
  Manager, with_basic_policy, tool_name_of, effective_definition, call_scope, after_preflight,
  explained, decide, authorize, prepare, execute,
}

-- The preflight policy's word on a call, if the tool has one.
abbrev pub preflight_of :
    Manager → String → ToolDefinition → Dict String Value → Option ToolSafetyDecision
preflight_of m name tool args = elim (lookup name m.register.preflight_policies) [
  | none ↦ none
  | some p ↦ p tool args
]

abbrev pub is_deny : Option ToolAccessMode → Bool
is_deny (some ToolAccessMode.deny) = true
is_deny mode = false

-- A preflight policy that does not allow the call has it approved.
abbrev pub Cleared : ToolCall → Option ToolSafetyDecision → Type 0
Cleared call none = Unit {0}
Cleared call (some d) = (d.allowed ≡ false → is_approved call ≡ true)

same_permissions :
    (tool : ToolDefinition) (mode : Option ToolAccessMode)
    → (effective_definition tool mode).permissions ≡ tool.permissions
unfolding effective_definition
same_permissions tool mode = ground arith

asked_needs_approval :
    (policy : BasicToolSafetyPolicy) (tool : ToolDefinition)
    → needs_approval policy (effective_definition tool (some ToolAccessMode.ask)) ≡ true
unfolding effective_definition needs_approval
asked_needs_approval policy tool = refl

explained_allowed :
    (preflight d : ToolSafetyDecision) (call : ToolCall)
    → (explained preflight call d).allowed ≡ d.allowed
unfolding explained
explained_allowed preflight d call = ground arith

after_preflight_allowed :
    (policy : BasicToolSafetyPolicy) (tool : ToolDefinition) (call : ToolCall)
    (o : Option ToolSafetyDecision)
    → (after_preflight (Safety.authorize policy) tool call o).allowed ≡ true
    → Disjoint tool.permissions policy.blocked_permissions
      × (is_refused call ≡ false)
      × (needs_approval policy tool ≡ true → is_approved call ≡ true)
      × Cleared call o
unfolding after_preflight
after_preflight_allowed policy tool call none h =
    let (d, r, n) = (authorize_exact policy tool call).0 h in (d, r, n, tt)
after_preflight_allowed policy tool call (some p) h = elim (Bool-cases p.allowed) [
  | inl a ↦
      let (d, r, n) = (authorize_exact policy tool call).0 (rw a at h) in
      (d, r, n, λ f. ground (arith, a, f))
  | inr a ↦ elim (Bool-cases p.requires_approval) [
    | inr q ↦ ground (arith, a, q, h)
    | inl q ↦
        let asked = effective_definition tool (some ToolAccessMode.ask) in
        let allowed : (Safety.authorize policy asked call).allowed ≡ true =
          ground (arith, h, a, q, explained_allowed p (Safety.authorize policy asked call) call) in
        let (d, r, n) = (authorize_exact policy asked call).0 allowed in
        let approved = n (asked_needs_approval policy tool) in
        (unfold effective_definition in d, r, (λ _. approved), λ _. approved)
  ]
]

decide_allowed :
    (register : Snapshot) (policies : Policies) (policy : BasicToolSafetyPolicy)
    (tool : ToolDefinition) (call : ToolCall) (args : Dict String Value)
    (mode : Option ToolAccessMode) (name : String) (d : ToolSafetyDecision)
    → let m = with_basic_policy register policies policy in
      let effective = effective_definition tool mode in
      tool_name_of call.tool_call ≡ ok name
      → get register name ≡ ok tool
      → decide m tool call args mode ≡ ok d
      → d.allowed ≡ true
      → (is_deny mode ≡ false)
        × (d
            ≡ after_preflight
                (Safety.authorize policy)
                effective
                call
                (preflight_of m name effective args))
unfolding decide get_preflight_policy
decide_allowed register policies policy tool call args (some ToolAccessMode.deny) name d n t h a =
    ground (arith, h, a)
decide_allowed register policies policy tool call args none name d n t h a =
    (refl, sym (ok-injective (rw (n, t) at h)))
decide_allowed register policies policy tool call args (some ToolAccessMode.allow) name d n t h a =
    (refl, sym (ok-injective (rw (n, t) at h)))
decide_allowed register policies policy tool call args (some ToolAccessMode.ask) name d n t h a =
    (refl, sym (ok-injective (rw (n, t) at h)))

-- With the basic safety policy, a call that `authorize` allows names a registered tool that its owner
-- does not deny; the tool has no blocked permission; the call carries no refusal of its own; it is
-- approved if the tool, with the owner's mode put on it, needs approval; and it is approved if the
-- tool's preflight policy does not allow it.
pub authorize_allowed :
    (register : Snapshot) (policies : Policies) (policy : BasicToolSafetyPolicy) (call : ToolCall)
    (d : ToolSafetyDecision)
    → authorize (with_basic_policy register policies policy) call ≡ ok d
    → d.allowed ≡ true
    → (s : Steps (with_basic_policy register policies policy) call d) × let mode =
          get_mode policies s.name (some s.scope) in
        let effective = effective_definition s.tool mode in
        (is_deny mode ≡ false)
        × Disjoint s.tool.permissions policy.blocked_permissions
        × (is_refused call ≡ false)
        × (needs_approval policy effective ≡ true → is_approved call ≡ true)
        × Cleared call
            (preflight_of (with_basic_policy register policies policy) s.name effective s.args)
authorize_allowed register policies policy call d h a =
    let m = with_basic_policy register policies policy in
    let s = authorize-Steps m call d h in
    let mode = get_mode policies s.name (some s.scope) in
    let effective = effective_definition s.tool mode in
    let (not_denied, e) =
      decide_allowed register policies policy s.tool call s.args mode s.name d s.is_name s.is_tool
        s.is_decision a in
    let (b, r, n, c) =
      after_preflight_allowed policy effective call (preflight_of m s.name effective s.args)
        (ap (λ (x : ToolSafetyDecision). x.allowed) (sym e) ∙ a) in
    (s, (not_denied, rw (same_permissions s.tool mode) at b, r, n, c))

-- No executor runs, where no decision can allow the call.
never_runs :
    (m : Manager) (call : ToolCall)
    → ((d : ToolSafetyDecision) → authorize m call ≡ ok d → d.allowed ≡ true → ⊥)
    → (execute m call).0 ≡ []
unfolding execute
never_runs m call h = elim (Result-cases (prepare m call)) [
  | inl (p, e) ↦ let (d, k, a) = authorized m call p e in absurd (h d k a)
  | inr (x, e) ↦ rw (execute, e) refl
]

not-Disjoint :
    (ps others : List ToolPermission)
    → any (λ p. any (λ q. q == p) others) ps ≡ true
    → Disjoint ps others
    → ⊥
not-Disjoint [] others h d = cc
not-Disjoint (p ∷ ps) others h d = ground (arith, h, d.0, not-Disjoint ps others, d.1)

-- With the basic safety policy, no executor runs on a call of a registered tool that has a blocked
-- permission, whatever the owner's mode, the approval that the call carries and the preflight
-- policy are.
pub blocked_never_runs :
    (register : Snapshot) (policies : Policies) (policy : BasicToolSafetyPolicy) (call : ToolCall)
    (name : String) (tool : ToolDefinition)
    → tool_name_of call.tool_call ≡ ok name
    → get register name ≡ ok tool
    → any (λ p. any (λ q. q == p) policy.blocked_permissions) tool.permissions ≡ true
    → (execute (with_basic_policy register policies policy) call).0 ≡ []
blocked_never_runs register policies policy call name tool n t b =
    never_runs (with_basic_policy register policies policy) call λ d h a.
      let (s, (not_denied, clear, refused, needed, cleared)) =
        authorize_allowed register policies policy call d h a in
      let same_name : s.name ≡ name = ok-injective (sym s.is_name ∙ n) in
      let same_tool : s.tool ≡ tool =
        ok-injective (sym s.is_tool ∙ ap (get register) same_name ∙ t) in
      not-Disjoint tool.permissions policy.blocked_permissions b (
        subst (λ (x : ToolDefinition). Disjoint x.permissions policy.blocked_permissions) same_tool
          clear)

decide_deny :
    (m : Manager) (tool : ToolDefinition) (call : ToolCall) (args : Dict String Value)
    (d : ToolSafetyDecision)
    → decide m tool call args (some ToolAccessMode.deny) ≡ ok d
    → d.allowed ≡ false
unfolding decide
decide_deny m tool call args d h = ground (arith, h)

-- No executor runs on a call of a tool that the call's owner denies, whatever the safety policy
-- is.
pub denied_never_runs :
    (m : Manager) (call : ToolCall) (name : String) (scope : PrincipalScope)
    → tool_name_of call.tool_call ≡ ok name
    → call_scope call ≡ ok scope
    → get_mode m.policies name (some scope) ≡ some ToolAccessMode.deny
    → (execute m call).0 ≡ []
denied_never_runs m call name scope n c g = never_runs m call λ d h a.
    let s = authorize-Steps m call d h in
    let same_name : s.name ≡ name = ok-injective (sym s.is_name ∙ n) in
    let same_scope : s.scope ≡ scope = ok-injective (sym s.is_scope ∙ c) in
    let mode : get_mode m.policies s.name (some s.scope) ≡ some ToolAccessMode.deny =
      ap (λ k. get_mode m.policies k (some s.scope)) same_name
      ∙ ap (λ k. get_mode m.policies name (some k)) same_scope
      ∙ g in
    let refused = decide_deny m s.tool call s.args d (rw mode at s.is_decision) in
    ground (arith, refused, a)
