-- ===== src/Tool/PolicyStore.antt =====
-- core/domain/tool_policy.py: the access mode that each owner sets for a tool.
use evernight_ai.Prelude.{
  String, ◌≡◌, Option, none, some, if◌then◌else◌, ◌==◌, nat_eq, string_eq, option_eq, pair_eq,
}
use evernight_ai.Dict.{Dict, lookup, insert, erase}
use evernight_ai.Dict.Laws.{lookup-insert, lookup-erase}
use evernight_ai.Auth.{PrincipalScope}
use evernight_ai.Tool.{ToolAccessMode}

-- `ToolPolicyStore._policies`
abbrev pub Policies : Type 0
Policies = Dict (Option String × String) ToolAccessMode

-- `(principal_scope.owner_id if principal_scope else None, tool_name)`
unfoldable pub policy_key : String → Option PrincipalScope → Option String × String
policy_key name none = (none, name)
policy_key name (some scope) = (scope.owner_id, name)

-- `ToolPolicyStore.get`
unfoldable pub get_mode : Policies → String → Option PrincipalScope → Option ToolAccessMode
unfolding lookup policy_key
get_mode d name scope = lookup (policy_key name scope) d

-- `ToolPolicyStore.set`
unfoldable pub set_mode : Policies → String → ToolAccessMode → Option PrincipalScope → Policies
unfolding insert policy_key
set_mode d name mode scope = insert (policy_key name scope) mode d

-- `ToolPolicyStore.delete`
unfoldable pub delete_mode : Policies → String → Option PrincipalScope → Policies
unfolding erase policy_key
delete_mode d name scope = erase (policy_key name scope) d

-- A mode that is set is read back under the same owner and name; other owners and other names keep
-- theirs.
pub get_mode-set_mode :
    (d : Policies) (name other : String) (mode : ToolAccessMode)
    (scope reader : Option PrincipalScope)
    → get_mode (set_mode d name mode scope) other reader ≡ (
        if policy_key name scope == policy_key other reader
        then some mode
        else get_mode d other reader)
unfolding get_mode set_mode
get_mode-set_mode d name other mode scope reader =
    lookup-insert (policy_key name scope) (policy_key other reader) mode d

pub get_mode-delete_mode :
    (d : Policies) (name other : String) (scope reader : Option PrincipalScope)
    → get_mode (delete_mode d name scope) other reader
      ≡ (if policy_key name scope == policy_key other reader then none else get_mode d other reader)
unfolding get_mode delete_mode
get_mode-delete_mode d name other scope reader =
    lookup-erase (policy_key name scope) (policy_key other reader) d
