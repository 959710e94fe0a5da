-- ===== src/Tool/Manager/Gate.antt =====
-- Which calls reach an executor.
use evernight_ai.Prelude.{
  String, ◌≡◌, refl, ◌↔◌, inl, inr, true, some, [], ◌∷◌, arith, nat_eq, string_eq, option_eq,
  pair_eq, Option-cases, ok, >>=-eq-ok, Result-cases,
}
use evernight_ai.Dict.{Dict, lookup, contains}
use evernight_ai.Value.{Value}
use evernight_ai.Auth.{PrincipalScope}
use evernight_ai.Tool.{ToolDefinition, ToolCall, ToolSafetyDecision}
use evernight_ai.Tool.Register.{Snapshot, Executor, has, get, get_executor}
use evernight_ai.Tool.PolicyStore.{get_mode}
use evernight_ai.Tool.Manager.{
  Manager, tool_name_of, execution_arguments, call_scope, decide, authorize, prepare, execute,
}

get-get_executor :
    (s : Snapshot) (name : String) (tool : ToolDefinition)
    → get s name ≡ ok tool
    → (executor : Executor) × (get_executor s name ≡ ok executor)
unfolding get get_executor has contains
get-get_executor s name tool h = elim (Option-cases (lookup name s.executors)) [
  | inl e ↦ ground (arith, e, h)
  | inr (executor, e) ↦ (executor, ground (arith, e, h))
]

-- What a decision of `authorize` rests on.
pub record Steps (m : Manager) (call : ToolCall) (d : ToolSafetyDecision) : Type 0 where
  pub name : String
  pub args : Dict String Value
  pub tool : ToolDefinition
  pub scope : PrincipalScope
  pub is_name : tool_name_of call.tool_call ≡ ok name
  pub is_args : execution_arguments m.register call ≡ ok args
  pub is_tool : get m.register name ≡ ok tool
  pub is_scope : call_scope call ≡ ok scope
  pub is_decision : decide m tool call args (get_mode m.policies name (some scope)) ≡ ok d

pub authorize-Steps :
    (m : Manager) (call : ToolCall) (d : ToolSafetyDecision)
    → authorize m call ≡ ok d
    → Steps m call d
unfolding authorize
authorize-Steps m call d h =
    let (n, p, h1) = >>=-eq-ok (tool_name_of call.tool_call) _ h in
    let (a, q, h2) = >>=-eq-ok (execution_arguments m.register call) _ h1 in
    let (t, r, h3) = >>=-eq-ok (get m.register n) _ h2 in
    let (c, u, h4) = >>=-eq-ok (call_scope call) _ h3 in
    record {
      name = n;
      args = a;
      tool = t;
      scope = c;
      is_name = p;
      is_args = q;
      is_tool = r;
      is_scope = u;
      is_decision = h4;
    }

-- A call that is authorized with an allowing decision is prepared.
prepared :
    (m : Manager) (call : ToolCall) (d : ToolSafetyDecision)
    → authorize m call ≡ ok d
    → d.allowed ≡ true
    → (p : Executor × Dict String Value) × (prepare m call ≡ ok p)
unfolding prepare
prepared m call d h a =
    let s = authorize-Steps m call d h in
    let (executor, x) = get-get_executor m.register s.name s.tool s.is_tool in
    rw (h, s.is_args, s.is_name, a, s.is_tool, x) (_, refl)

pub authorized :
    (m : Manager) (call : ToolCall) (p : Executor × Dict String Value)
    → prepare m call ≡ ok p
    → (d : ToolSafetyDecision) × (authorize m call ≡ ok d) × (d.allowed ≡ true)
unfolding prepare
authorized m call p h =
    let (n, _, h1) = >>=-eq-ok (tool_name_of call.tool_call) _ h in
    let (a, _, h2) = >>=-eq-ok (execution_arguments m.register call) _ h1 in
    let (d, e, h3) = >>=-eq-ok (authorize m call) _ h2 in (d, e, ground (arith, h3))

-- An executor runs exactly if the call is authorized with an allowing decision, and then it runs
-- once.
pub execute_exact :
    (m : Manager) (call : ToolCall)
    → ((args : Dict String Value) × ((execute m call).0 ≡ args ∷ []))
      ↔ ((d : ToolSafetyDecision) × (authorize m call ≡ ok d) × (d.allowed ≡ true))
unfolding execute
execute_exact m call = elim (Result-cases (prepare m call)) [
  | inl (p, e) ↦ ((λ h. authorized m call p e), λ h. rw (execute, e) (_, refl))
  | inr (x, e) ↦ (
    (λ (args, h). ground (arith, h, e)),
    λ (d, h, a). let (p, q) = prepared m call d h a in ground (arith, e, q),
  )
]
