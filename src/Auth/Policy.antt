-- ===== src/Auth/Policy.antt =====
-- core/domain/auth.py: the permission policy and the authorizer.
use Prim.Native.String.{◌++◌ as ◌<>◌}
use evernight_ai.Prelude.{
  String, Bool, true, false, ◌||◌, Option, none, some, any, auth_permission_denied, Result, ok, err,
  ◌==◌, string_eq, if◌then◌else◌,
}
use evernight_ai.Auth.{Principal}

pub record AuthPermission : Type 0 where
  pub action : String
  pub resource : String

pub record AuthRequest : Type 0 where
  pub principal : Principal
  pub permission : AuthPermission

-- `AuthDecision`: its status as a Boolean, which is the property `allowed`.
pub record AuthDecision : Type 0 where
  pub allowed : Bool
  pub reason : Option String

-- `permission_key`
unfoldable pub permission_key : AuthPermission → String
permission_key p = p.resource <> (":" <> p.action)

-- `AllowAllAuthPolicy.authorize`
unfoldable pub allow_all : AuthRequest → AuthDecision
allow_all request = record { allowed = true; reason = none }

-- `PermissionAuthPolicy.authorize`
unfoldable pub authorize : AuthRequest → AuthDecision
unfolding permission_key
authorize request =
    let required = permission_key request.permission in
    let allowed = request.principal.permissions in
    if any (λ p. p == "*") allowed || any (λ p. p == required) allowed
    then record { allowed = true; reason = none }
    else record { allowed = false; reason = some ("Permission '" <> (required <> "' is required")) }

-- `Authorizer.require`, over the policy that the authorizer was given.
unfoldable pub require_allowed : (AuthRequest → AuthDecision) → AuthRequest → Result (Unit {0})
require_allowed policy request =
    if (policy request).allowed then ok tt else err auth_permission_denied
