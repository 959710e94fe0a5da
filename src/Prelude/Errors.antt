-- ===== src/Prelude/Errors.antt =====
-- core/error/*.py: one constructor for each class of exception that the modelled code raises. The
-- message text is left out, except the detail that `tool_policy_rejection` hands on.
use Prim.Native.String.{String}
use mathlib.Core.Path.{◌≡◌, refl}
use mathlib.Core.Option.{Option}
use mathlib.Core.Logic.{◌⊎◌, inl, inr}
use mathlib.Core.Bool.{Bool, true, false}

pub data Error : Type 0 where
  context_not_found context_state session_not_found memory_not_found : Error
  tool_not_found tool_state tool_input tool_result tool_execution : Error
  tool_policy : Option String → Error
  auth_permission_denied auth_required validation not_found : Error
  chat_input agent_state agent_shutdown : Error
  agent_run_lease_lost integrity : Error
  skill_not_found skill_conflict skill_configuration skill_input skill_disabled skill_render : Error
  image_task_not_found image_task_conflict image_task_limit : Error
  value_error type_error : Error

-- A call raises or returns.
pub data Result {κ} (R : Type κ) : Type κ where
  err : Error → Result R
  ok : R → Result R

module _ {κ} {R : Type κ} where
  -- To split on the result of a call and keep the equation.
  pub Result-cases : (m : Result R) → ((r : R) × (m ≡ ok r)) ⊎ ((x : Error) × (m ≡ err x))
  Result-cases (err x) = inr (x, refl)
  Result-cases (ok r) = inl (r, refl)

  pub ok-injective : {r s : R} → ok r ≡ ok s → r ≡ s
  ok-injective same = cc

-- `if not test: raise x`
abbrev pub require : (test : Bool) (x : Error) → Result (Unit {0})
require false x = err x
require true x = ok tt

module _ {κ μ} {R : Type κ} {S : Type μ} where
  infixl 5 ◌>>=◌
  -- What follows a call gets its result; an exception passes.
  abbrev pub ◌>>=◌ : Result R → (R → Result S) → Result S
  err x >>= next = err x
  ok r >>= next = next r

  -- A chain that returned has returned at every step.
  pub >>=-eq-ok :
      (m : Result R) (next : R → Result S) {s : S}
      → (m >>= next) ≡ ok s
      → (r : R) × (m ≡ ok r) × (next r ≡ ok s)
  >>=-eq-ok (err x) next returned = cc
  >>=-eq-ok (ok r) next returned = (r, refl, returned)

module _ {μ} {S : Type μ} where
  infixl 5 ◌>>◌
  abbrev pub ◌>>◌ : Result (Unit {0}) → Result S → Result S
  checked >> rest = checked >>= λ done. rest
