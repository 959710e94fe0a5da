-- ===== src/Session.antt =====
-- core/domain/session.py: the register of sessions and its manager. The clock is an argument.
pub mod Theorems
pub mod Listing
use evernight_ai.Prelude.{
  ℕ, zero, suc, ◌+◌, ◌-◌, ◌*◌, ◌/◌, ◌≤◌, ◌<◌, max, String, ◌≡◌, refl, sym, ap, ◌∙◌, ◌≢◌, ◌↔◌, ◌⊎◌,
  inl, inr, Bool, true, false, not, ◌&&◌, ◌||◌, Option, none, some, List, [], ◌∷◌, ◌++◌, map,
  reverse, arith, eq_iff, ltb, leb, eqb, if◌then◌else◌, text_ltb, Eq, ◌==◌, nat_eq, string_eq,
  option_eq, pair_eq, Bool-cases, Option-cases, is_some, or_else, when, length, keep, any, all,
  take, drop, get_elem?, All, length-append, length-keep-le, length-take, All-append, All-keep,
  All-take, keep_sound, Result, ok, err, Error, ◌>>=◌, ◌>>◌, require, >>=-eq-ok,
}
use evernight_ai.Dict.{Dict}
use evernight_ai.Auth.{PrincipalScope}
use evernight_ai.Registry
use evernight_ai.Registry.{Item}

pub data SessionStatus : Type 0 where
  active archived : SessionStatus

-- `Session`, without its free-form metadata; times are instants.
pub record Session : Type 0 where
  pub session_id : String
  pub owner_id : Option String
  pub title : Option String
  pub context_id : String
  pub provider_id : Option String
  pub model_id : Option String
  pub status : SessionStatus
  pub created_at : ℕ
  pub updated_at : ℕ

abbrev pub Sessions : Type 0
Sessions = Dict String Session

instance abbrev pub session_item : Item Session
session_item = record {
  item_id = λ s. s.session_id;
  owner_of = λ s. s.owner_id;
  missing = Error.session_not_found;
}

unfoldable pub same_status : SessionStatus → SessionStatus → Bool
same_status active active = true
same_status archived archived = true
same_status _ _ = false

with_status : Option SessionStatus → List Session → List Session
unfolding same_status
with_status none l = l
with_status (some status) l = keep (λ s. same_status s.status status) l

with_provider : Option String → List Session → List Session
with_provider none l = l
with_provider (some p) l = keep (λ s. s.provider_id == some p) l

with_model : Option String → List Session → List Session
with_model none l = l
with_model (some m) l = keep (λ s. s.model_id == some m) l

-- The filters of `SessionRegister.list_sessions`.
pub record SessionFilter : Type 0 where
  pub cursor : Option String
  pub limit : Option ℕ
  pub owner_id : Option String
  pub status : Option SessionStatus
  pub provider_id : Option String
  pub model_id : Option String

-- `SessionRegister.list_sessions`
unfoldable pub list_sessions : Sessions → SessionFilter → Option PrincipalScope → List Session
unfolding with_status with_provider with_model
list_sessions d f scope =
    Registry.list_items d f.cursor f.limit f.owner_id
      (λ l. with_model f.model_id (with_provider f.provider_id (with_status f.status l))) scope

-- `SessionManager.create`
unfoldable pub create : Sessions → Session → Option PrincipalScope → Result (Sessions × Session)
create d s scope = do
  d' ← Registry.register d s scope
  s' ← Registry.get d' s.session_id scope
  ok (d', s')

-- `SessionManager.replace`; `now` is `utc_now()`.
unfoldable pub replace :
    Sessions → Session → ℕ → Option PrincipalScope → Result (Sessions × Session)
replace d s now scope = do
  require (Registry.has d s.session_id scope) Error.session_not_found
  d' ← Registry.register d (record s { updated_at = now }) scope
  s' ← Registry.get d' s.session_id scope
  ok (d', s')

-- `SessionManager.archive`
unfoldable pub archive : Sessions → String → ℕ → Option PrincipalScope → Result (Sessions × Session)
archive d session_id now scope = do
  s ← Registry.get d session_id scope
  let updated = record s { status = archived; updated_at = now }
  d' ← Registry.register d updated scope
  ok (d', updated)

-- `SessionManager.delete`
unfoldable pub delete : Sessions → String → Option PrincipalScope → Result Sessions
delete d session_id scope = Registry.unregister d session_id scope

-- `SessionManager.clear`
unfoldable pub clear : Sessions → Option PrincipalScope → Result Sessions
clear d scope = Registry.clear d scope

-- The calls that change the sessions.
pub data SessionCall : Type 0 where
  creates : Session → SessionCall
  replaces : Session → ℕ → SessionCall
  archives : String → ℕ → SessionCall
  deletes : String → SessionCall
  clears : SessionCall

-- A call that raises leaves the sessions as they were.
unfoldable pub step : Option PrincipalScope → Sessions → SessionCall → Sessions
unfolding Registry.kept Registry.kept_state
step scope d (creates s) = Registry.kept d (create d s scope)
step scope d (replaces s now) = Registry.kept d (replace d s now scope)
step scope d (archives k now) = Registry.kept d (archive d k now scope)
step scope d (deletes k) = Registry.kept_state d (delete d k scope)
step scope d clears = Registry.kept_state d (clear d scope)

unfoldable pub run : Option PrincipalScope → Sessions → List SessionCall → Sessions
unfolding step
run scope d [] = d
run scope d (c ∷ cs) = run scope (step scope d c) cs
