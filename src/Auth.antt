-- ===== src/Auth.antt =====
-- core/schema/auth.py: who acts, and the ownership scope that storage calls carry.
pub mod Policy
use evernight_ai.Prelude.{String, Bool, true, Option, none, some, List, ◌==◌, string_eq, option_eq}

pub data PrincipalType : Type 0 where
  user service anonymous : PrincipalType

-- `Principal`, without its free-form metadata.
pub record Principal : Type 0 where
  pub principal_id : String
  pub principal_type : PrincipalType
  pub roles : List String
  pub permissions : List String

pub record PrincipalScope : Type 0 where
  pub owner_id : Option String

-- `PrincipalScope.for_principal`
unfoldable pub for_principal : Principal → PrincipalScope
for_principal p = record { owner_id = some p.principal_id }

permits_owner : Option String → Option String → Bool
permits_owner none owner = true
permits_owner (some s) owner = owner == some s

-- `PrincipalScope.permits`
unfoldable pub permits : PrincipalScope → Option String → Bool
unfolding permits_owner
permits scope owner = permits_owner scope.owner_id owner

-- `_scope_permits`, which three modules of core/domain repeat: no scope permits everything.
unfoldable pub scope_permits : Option PrincipalScope → Option String → Bool
unfolding permits
scope_permits none owner = true
scope_permits (some scope) owner = permits scope owner
