-- ===== src/Tool/Safety.antt =====
-- `BasicToolSafetyPolicy` of core/domain/tool.py.
pub mod Gate
use evernight_ai.Prelude.{
  ℕ, zero, suc, ◌+◌, ◌-◌, ◌*◌, ◌/◌, ◌≤◌, ◌<◌, max, String, ◌≡◌, refl, sym, ap, ◌∙◌, ◌≢◌, ◌↔◌, ◌⊎◌,
  inl, inr, Bool, true, false, not, ◌&&◌, ◌||◌, Option, none, some, List, [], ◌∷◌, ◌++◌, map,
  reverse, arith, eq_iff, ltb, leb, eqb, if◌then◌else◌, text_ltb, Eq, ◌==◌, nat_eq, nat_beq_iff,
  string_eq, option_eq, pair_eq, discrete_eq, Bool-cases, Option-cases, is_some, or_else, when,
  text_ltb_asym, text_le_trans, length, keep, any, all, take, drop, get_elem?, All, length-append,
  length-keep-le, length-take, All-append, All-behind, All-keep, All-take, keep_sound, keep-append,
  keep_none, length-drop-le, All-keep_both, All-map, Result, ok, err, Error, ◌>>=◌, ◌>>◌, require,
  >>=-eq-ok, Result-cases,
}
use Prim.Native.String.{◌++◌ as ◌<>◌}
use mathlib.Core.Option
use evernight_ai.Dict.{Dict, lookup}
use evernight_ai.Value.{Value, null, bool, truthy_at, from_text}
use evernight_ai.Tool.{
  ToolPermission, ToolPermission-discrete, permission_value, approval_status_value,
  ToolApprovalMode, ToolApprovalStatus, ToolSafetyLevel, ToolDefinition, ToolCall,
  ToolApprovalDecision, ToolApprovalRequest, ToolSafetyDecision,
}

instance abbrev pub permission_eq : Eq ToolPermission
permission_eq = discrete_eq ToolPermission-discrete

-- The two permission sets of the policy object.
pub record BasicToolSafetyPolicy : Type 0 where
  pub blocked_permissions : List ToolPermission
  pub approval_required_permissions : List ToolPermission

-- `BasicToolSafetyPolicy.__init__`
unfoldable pub basic_policy :
    Option (List ToolPermission) → Option (List ToolPermission) → BasicToolSafetyPolicy
basic_policy blocked approval_required = record {
  blocked_permissions = or_else blocked (ToolPermission.shell ∷ ToolPermission.destructive ∷ []);
  approval_required_permissions = or_else approval_required (
      ToolPermission.write ∷ ToolPermission.process ∷ ToolPermission.network
      ∷ ToolPermission.database ∷ ToolPermission.external_api ∷ []);
}

-- `permissions & others`
unfoldable pub meet : List ToolPermission → List ToolPermission → List ToolPermission
meet permissions others = keep (λ p. any (λ q. q == p) others) permissions

-- The values of a set, sorted: a value that is there already is not added again.
insert_sorted : String → List String → List String
insert_sorted v [] = v ∷ []
insert_sorted v (w ∷ ws) =
    let rest = insert_sorted v ws in
    if v == w then w ∷ ws else if text_ltb v w then v ∷ w ∷ ws else w ∷ rest

sorted_values : List ToolPermission → List String
unfolding insert_sorted permission_value
sorted_values [] = []
sorted_values (p ∷ ps) = insert_sorted (permission_value p) (sorted_values ps)

-- `", ".join(values)`
join_values : List String → String
join_values [] = ""
join_values (v ∷ []) = v
join_values (v ∷ w ∷ ws) = v <> (", " <> join_values (w ∷ ws))

-- `_format_permissions`
unfoldable pub format_permissions : List ToolPermission → String
unfolding sorted_values join_values
format_permissions ps = join_values (sorted_values ps)

-- `reason or text`
unfoldable pub text_or : Option String → String → String
text_or none t = t
text_or (some s) t = if s == "" then t else s

-- `value is True`
is_true : Option Value → Bool
is_true (some (bool b)) = b
is_true _ = false

-- `value is not None`, with the value.
unfoldable pub not_null : Option Value → Option Value
not_null none = none
not_null (some null) = none
not_null (some v) = some v

with_directory : Bool → Option Value → Dict String Value
with_directory true (some v) = ("working_directory", v) ∷ []
with_directory true none = []
with_directory false o = []

-- The metadata that carries the working directory of a tool that supports one.
directory_metadata : ToolDefinition → ToolCall → Dict String Value
unfolding lookup truthy_at not_null with_directory
directory_metadata tool call =
    with_directory (truthy_at (lookup "supports_working_directory" tool.metadata))
      (not_null (lookup "working_directory" call.metadata))

-- `_approval_request`
unfoldable pub request_approval : ToolDefinition → ToolCall → ToolApprovalRequest
unfolding directory_metadata
request_approval tool call = record {
  approval_id = call.tool_call_id <> ":approval";
  tool_call_id = call.tool_call_id;
  tool_name = tool.name;
  tool_call = call.tool_call;
  permissions = tool.permissions;
  safety_level = tool.safety_level;
  reason = some "Tool call requires approval";
  metadata = directory_metadata tool call;
}

is_safe_level : ToolSafetyLevel → Bool
is_safe_level ToolSafetyLevel.safe = true
is_safe_level ToolSafetyLevel.sensitive = false
is_safe_level ToolSafetyLevel.restricted = false

by_mode : ToolApprovalMode → Bool → Bool
by_mode ToolApprovalMode.required b = true
by_mode ToolApprovalMode.never b = false
by_mode ToolApprovalMode.auto b = b

-- `requires_approval`, as `authorize` computes it.
unfoldable pub needs_approval : BasicToolSafetyPolicy → ToolDefinition → Bool
unfolding is_safe_level by_mode meet
needs_approval policy tool = by_mode tool.approval_mode (
    tool.requires_approval
    || (not (is_safe_level tool.safety_level)
        || not (length (meet tool.permissions policy.approval_required_permissions) == 0)))

is_refusal : ToolApprovalStatus → Bool
is_refusal ToolApprovalStatus.denied = true
is_refusal ToolApprovalStatus.expired = true
is_refusal ToolApprovalStatus.requested = false
is_refusal ToolApprovalStatus.approved = false

is_approval : ToolApprovalStatus → Bool
is_approval ToolApprovalStatus.approved = true
is_approval ToolApprovalStatus.denied = false
is_approval ToolApprovalStatus.expired = false
is_approval ToolApprovalStatus.requested = false

-- The approval that comes with the call, if it is for the call and has such a status.
for_call : (ToolApprovalStatus → Bool) → ToolCall → Option ToolApprovalDecision → Bool
for_call test call none = false
for_call test call (some a) = (a.tool_call_id == call.tool_call_id) && test a.status

unfoldable pub is_refused : ToolCall → Bool
unfolding for_call is_refusal
is_refused call = for_call is_refusal call call.approval

-- `approved`
unfoldable pub is_approved : ToolCall → Bool
unfolding for_call is_approval is_true lookup
is_approved call =
    for_call is_approval call call.approval || is_true (lookup "approved" call.metadata)

status_reason : Option ToolApprovalDecision → String
unfolding text_or approval_status_value
status_reason none = "Tool call requires approval"
status_reason (some a) = text_or a.reason ("Tool approval " <> approval_status_value a.status)

waiting_metadata : ToolDefinition → ToolCall → Option ToolApprovalDecision → Dict String Value
unfolding directory_metadata approval_status_value
waiting_metadata tool call none = directory_metadata tool call
waiting_metadata tool call (some a) =
    ("approval_status", Value.text (approval_status_value a.status))
    ∷ ("approval_id", Value.text a.approval_id)
    ∷ []

refusal : Bool → String → Option ToolApprovalRequest → Dict String Value → ToolSafetyDecision
refusal requires_approval reason request metadata = record {
  allowed = false;
  reason = some reason;
  requires_approval = requires_approval;
  approval_request = request;
  metadata = metadata;
}

-- `BasicToolSafetyPolicy.authorize`
unfoldable pub authorize : BasicToolSafetyPolicy → ToolDefinition → ToolCall → ToolSafetyDecision
unfolding meet format_permissions needs_approval is_refused is_approved status_reason
    waiting_metadata refusal request_approval
authorize policy tool call =
    let blocked = meet tool.permissions policy.blocked_permissions in
    let requires_approval = needs_approval policy tool in
    let approved = is_approved call in
    let request = some (request_approval tool call) in
    if not (length blocked == 0)
    then refusal false ("Blocked permissions: " <> format_permissions blocked) none []
    else if is_refused call
    then refusal true (status_reason call.approval) request []
    else if requires_approval && not approved
    then refusal true (status_reason call.approval) request
        (waiting_metadata tool call call.approval)
    else record {
      allowed = true;
      reason = none;
      requires_approval = requires_approval;
      approval_request = if requires_approval then request else none;
      metadata =
          ("policy", Value.text "BasicToolSafetyPolicy")
          ∷ ("approved", bool approved)
          ∷ ("approval_id", from_text (Option.map (λ a. a.approval_id) call.approval))
          ∷ [];
    }
