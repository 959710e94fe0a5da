-- ===== src/Tool/Safety/Gate.antt =====
-- When the policy allows a call.
use evernight_ai.Prelude.{
  ◌≡◌, refl, ◌↔◌, true, false, List, [], ◌∷◌, arith, ◌==◌, nat_eq, string_eq, option_eq, pair_eq,
  length, any, All,
}
use evernight_ai.Tool.{ToolPermission, ToolDefinition, ToolCall}
use evernight_ai.Tool.Safety.{
  permission_eq, BasicToolSafetyPolicy, meet, needs_approval, is_refused, is_approved, authorize,
}

-- None of the permissions is among the others.
abbrev pub Disjoint : List ToolPermission → List ToolPermission → Type 0
Disjoint ps others = All (λ p. any (λ q. q == p) others ≡ false) ps

meet-Disjoint :
    (ps others : List ToolPermission) → (length (meet ps others) ≡ 0) ↔ Disjoint ps others
unfolding meet
meet-Disjoint [] others = ((λ h. tt), λ h. refl)
meet-Disjoint (p ∷ ps) others =
    ground (arith, (meet-Disjoint ps others).0, (meet-Disjoint ps others).1)

-- The policy allows a call exactly if the tool has no blocked permission, the call does not carry
-- a refusal of its own, and the call is approved where the tool needs approval.
pub authorize_exact :
    (policy : BasicToolSafetyPolicy) (tool : ToolDefinition) (call : ToolCall)
    → ((authorize policy tool call).allowed ≡ true) ↔ (
        Disjoint tool.permissions policy.blocked_permissions
        × (is_refused call ≡ false)
        × (needs_approval policy tool ≡ true → is_approved call ≡ true))
unfolding authorize
authorize_exact policy tool call =
    let blocked = meet-Disjoint tool.permissions policy.blocked_permissions in
    (
      (λ h. (ground (arith, blocked.0, h), ground (arith, h), λ n. ground (arith, h, n))),
      λ (d, r, a). ground (arith, blocked.1 d, r, a),
    )
