-- ===== src/ApiKey.antt =====
-- core/domain/api_key.py and infra/adapters/api_key.py: issuing, finding and revoking API keys.
pub mod Issued
pub mod Revoked
use evernight_ai.Prelude.{
  ℕ, zero, suc, ◌+◌, ◌-◌, ◌*◌, ◌/◌, ◌≤◌, ◌<◌, max, String, ◌≡◌, refl, sym, ap, ◌∙◌, ◌≢◌, ◌↔◌, ◌⊎◌,
  inl, inr, Bool, true, false, not, ◌&&◌, ◌||◌, Option, none, some, List, [], ◌∷◌, ◌++◌, map,
  reverse, arith, eq_iff, ltb, leb, eqb, if◌then◌else◌, text_ltb, Eq, ◌==◌, nat_eq, nat_beq_iff,
  string_eq, option_eq, pair_eq, discrete_eq, string-discrete, nat-discrete, beq_refl, if_either,
  Bool-cases, Option-cases, is_some, or_else, when, text_ltb_asym, text_le_trans, length, keep, any,
  all, take, drop, get_elem?, All, length-append, length-keep-le, length-take, All-append,
  All-behind, All-keep, All-take, keep_sound, keep-append, keep_none, length-drop-le, All-keep_both,
  All-map, Result, ok, err, Error, ◌>>=◌, ◌>>◌, require, >>=-eq-ok, Result-cases, ok-injective,
  place_by, sorted_by, All-sorted_by, sorted_by-All, Sorted, sorted_by-Sorted, length-sorted_by, ℤ,
  pos, negsuc, negated, int_ltb, int_ltb_asym, int_le_trans, minus,
}
use Prim.Native.String.{count, slice}
use Prim.Native.String.{◌++◌ as ◌<>◌}
use evernight_ai.Dict.{Dict, lookup}
use evernight_ai.Auth.{Principal}

-- `ApiKeyInfo`; times are instants, which have a time zone.
pub record ApiKeyInfo : Type 0 where
  pub key_id : String
  pub owner_id : String
  pub name : String
  pub prefix : String
  pub created_at : ℕ
  pub expires_at : Option ℕ
  pub revoked_at : Option ℕ

-- A row of auth_api_keys.
pub record KeyRow : Type 0 where
  pub info : ApiKeyInfo
  pub digest : String

-- The rows, the newest first.
abbrev pub Keys : Type 0
Keys = List KeyRow

-- The row of the other has the primary key or the digest, which are unique.
unfoldable pub clashes : KeyRow → KeyRow → Bool
clashes r s = (r.info.key_id == s.info.key_id) || (r.digest == s.digest)

-- `SQLiteApiKeyRegister.create`
unfoldable pub create : Keys → ApiKeyInfo → String → Result Keys
unfolding clashes
create keys info digest =
    let row : KeyRow = record { info = info; digest = digest } in
    require (not (any (clashes row) keys)) Error.integrity >> ok (row ∷ keys)

-- `SQLiteApiKeyRegister.get_by_digest`
unfoldable pub get_by_digest : Keys → String → Option ApiKeyInfo
get_by_digest [] digest = none
get_by_digest (r ∷ keys) digest =
    let rest = get_by_digest keys digest in if r.digest == digest then some r.info else rest

-- `SQLiteApiKeyRegister.list_keys`
unfoldable pub list_keys : Keys → String → List ApiKeyInfo
list_keys keys owner_id = map (λ r. r.info) (keep (λ r. r.info.owner_id == owner_id) keys)

-- `owner_id = ? AND key_id = ?`
unfoldable pub is_key : String → String → KeyRow → Bool
is_key owner_id key_id r = (r.info.owner_id == owner_id) && (r.info.key_id == key_id)

-- The time of the first revocation stays.
unfoldable pub revoked_row : ℕ → KeyRow → KeyRow
revoked_row now r = record r {
  info = record r.info { revoked_at = some (or_else r.info.revoked_at now) };
}

-- `SQLiteApiKeyRegister.revoke`, with its answer.
unfoldable pub revoke : Keys → String → String → ℕ → Keys × Bool
unfolding is_key revoked_row
revoke keys owner_id key_id now = (
  map (λ r. if is_key owner_id key_id r then revoked_row now r else r) keys,
  any (is_key owner_id key_id) keys,
)

-- What the manager uses of Python's texts, hashes and random numbers: `str.strip`, and `_digest`,
-- the hexadecimal SHA-256.
pub record Tools : Type 0 where
  pub strip : String → String
  pub digest_of : String → String

unfoldable pub in_future : ℕ → Option ℕ → Bool
in_future now none = true
in_future now (some t) = ltb now t

-- The name, stripped, has 1 to 120 characters.
unfoldable pub name_fits : Tools → String → Bool
name_fits tools name =
    let stripped = tools.strip name in not (stripped == "") && leb (count stripped) 120

-- The `ApiKeyInfo` of a new key.
unfoldable pub new_info : Tools → String → String → Option ℕ → String → String → ℕ → ApiKeyInfo
new_info tools owner_id name expires_at api_key key_id now = record {
  key_id = key_id;
  owner_id = owner_id;
  name = tools.strip name;
  prefix = slice api_key 0 12;
  created_at = now;
  expires_at = expires_at;
  revoked_at = none;
}

-- `ApiKeyManager.issue`; `token` is `secrets.token_urlsafe(32)`, `key_id` is `uuid4().hex`.
unfoldable pub issue :
    Tools
    → Keys
    → String
    → String
    → Option ℕ
    → String
    → String
    → ℕ
    → Result (Keys × (String × ApiKeyInfo))
unfolding create name_fits new_info
issue tools keys owner_id name expires_at token key_id now = do
  require (name_fits tools name) Error.validation
  require (in_future now expires_at) Error.validation
  let api_key = "ena_" <> token
  let info = new_info tools owner_id name expires_at api_key key_id now
  keys' ← create keys info (tools.digest_of api_key)
  ok (keys', (api_key, info))

-- `ApiKeyManager.revoke`
unfoldable pub revoke_key : Keys → String → String → ℕ → Result Keys
unfolding revoke
revoke_key keys owner_id key_id now =
    let (keys', found) = revoke keys owner_id key_id now in
    require found Error.not_found >> ok keys'

-- The key is neither revoked nor expired.
unfoldable pub is_valid : ℕ → ApiKeyInfo → Bool
unfolding in_future
is_valid now info = not (is_some info.revoked_at) && in_future now info.expires_at

-- `ApiKeyManager.owner_for_key`
unfoldable pub owner_for_key : Tools → Keys → String → ℕ → Result String
unfolding get_by_digest is_valid
owner_for_key tools keys api_key now = do
  require (slice api_key 0 4 == "ena_") Error.auth_required
  elim (when (is_valid now) (get_by_digest keys (tools.digest_of api_key))) [
    | none ↦ err Error.auth_required
    | some info ↦ ok info.owner_id
  ]

-- `ManagedApiKeyAuthDevice.principal`, for a credential that is a text or is not one.
unfoldable pub principal :
    Tools → Keys → Dict String Principal → Option String → ℕ → Result Principal
unfolding owner_for_key lookup
principal tools keys principals credential now = elim credential [
  | none ↦ err Error.auth_required
  | some api_key ↦ do
    require (not (api_key == "")) Error.auth_required
    owner_id ← owner_for_key tools keys api_key now
    elim (lookup owner_id principals) [ none ↦ err Error.auth_required | some p ↦ ok p ]
]

-- The calls that change the table.
pub data KeyCall : Type 0 where
  issues : String → String → Option ℕ → String → String → ℕ → KeyCall
  revokes : String → String → ℕ → KeyCall

unfoldable pub kept_issue : Keys → Result (Keys × (String × ApiKeyInfo)) → Keys
kept_issue keys (err x) = keys
kept_issue keys (ok p) = p.0

unfoldable pub step : Tools → Keys → KeyCall → Keys
unfolding issue revoke kept_issue
step tools keys (issues owner_id name expires_at token key_id now) =
    kept_issue keys (issue tools keys owner_id name expires_at token key_id now)
step tools keys (revokes owner_id key_id now) = (revoke keys owner_id key_id now).0

unfoldable pub run : Tools → Keys → List KeyCall → Keys
unfolding step
run tools keys [] = keys
run tools keys (c ∷ calls) = run tools (step tools keys c) calls
