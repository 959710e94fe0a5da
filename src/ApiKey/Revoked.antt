-- ===== src/ApiKey/Revoked.antt =====
-- A revoked key lets nobody in any more.
use evernight_ai.Prelude.{
  ℕ, String, ◌≡◌, refl, sym, ◌∙◌, inl, inr, Bool, true, false, not, ◌&&◌, Option, none, some, List,
  [], ◌∷◌, arith, eq_iff, if◌then◌else◌, ◌==◌, nat_eq, string_eq, option_eq, pair_eq, beq_refl,
  if_either, Bool-cases, is_some, when, any, Result, ok, err, Error, ◌>>=◌, ◌>>◌, require,
}
use Prim.Native.String.{◌++◌ as ◌<>◌}
use evernight_ai.ApiKey.{
  ApiKeyInfo, KeyRow, Keys, clashes, create, get_by_digest, is_key, revoked_row, revoke, Tools,
  issue, is_valid, owner_for_key, in_future, name_fits, new_info, KeyCall, issues, revokes,
  kept_issue, step, run,
}

-- No two rows share their primary key or their digest.
abbrev pub IsUnique : Keys → Type 0
IsUnique [] = Unit {0}
IsUnique (r ∷ keys) = (any (clashes r) keys ≡ false) × IsUnique keys

-- The row has the digest and is not revoked.
abbrev pub is_live : String → KeyRow → Bool
is_live d r = (r.digest == d) && not (is_some r.info.revoked_at)

abbrev pub has_digest : String → KeyRow → Bool
has_digest d r = r.digest == d

-- A row with the digest is there, and every such row is revoked.
IsDead : String → Keys → Type 0
IsDead d keys = (any (has_digest d) keys ≡ true) × (any (is_live d) keys ≡ false)

pub new_digest :
    (row : KeyRow) (keys : Keys) (d : String)
    → any (clashes row) keys ≡ false
    → any (has_digest d) keys ≡ true
    → (row.digest == d) ≡ false
unfolding clashes
new_digest row [] d h e = ground (arith, e)
new_digest row (r ∷ keys) d h e = ground (
  arith,
  h,
  e,
  new_digest row keys d,
  eq_iff r.digest d,
  eq_iff row.digest d,
  eq_iff row.digest r.digest,
)

abbrev pub row_of : ApiKeyInfo → String → KeyRow
row_of info d = record { info = info; digest = d }

pub created :
    (keys keys' : Keys) (info : ApiKeyInfo) (d : String)
    → create keys info d ≡ ok keys'
    → (any (clashes (row_of info d)) keys ≡ false) × (keys' ≡ row_of info d ∷ keys)
unfolding create
created keys keys' info d e = elim (Bool-cases (any (clashes (row_of info d)) keys)) [
  | inl c ↦ ground (arith, e, c)
  | inr c ↦ ground (arith, e, c)
]

create-IsUnique :
    (keys keys' : Keys) (info : ApiKeyInfo) (d : String)
    → IsUnique keys
    → create keys info d ≡ ok keys'
    → IsUnique keys'
create-IsUnique keys keys' info d h e =
    let (free, same) = created keys keys' info d e in rw same (free, h)

create-IsDead :
    (keys keys' : Keys) (info : ApiKeyInfo) (d j : String)
    → IsDead d keys
    → create keys info j ≡ ok keys'
    → IsDead d keys'
unfolding IsDead
create-IsDead keys keys' info d j h e =
    let (free, same) = created keys keys' info j e in
    let other : (j == d) ≡ false = new_digest (row_of info j) keys d free h.0 in rw (same, other) h

-- The row after a revocation keeps its digest and its primary key.
abbrev pub after : String → String → ℕ → KeyRow → KeyRow
after owner key now r = if is_key owner key r then revoked_row now r else r

pub after_digest :
    (owner key : String) (now : ℕ) (r : KeyRow) → (after owner key now r).digest ≡ r.digest
unfolding revoked_row
after_digest owner key now r =
    if_either (λ (s : KeyRow). s.digest ≡ r.digest) (is_key owner key r) refl refl

after_key_id :
    (owner key : String) (now : ℕ) (r : KeyRow)
    → (after owner key now r).info.key_id ≡ r.info.key_id
unfolding revoked_row
after_key_id owner key now r =
    if_either (λ (s : KeyRow). s.info.key_id ≡ r.info.key_id) (is_key owner key r) refl refl

after-clashes :
    (owner key : String) (now : ℕ) (r s : KeyRow)
    → clashes (after owner key now r) (after owner key now s) ≡ clashes r s
unfolding clashes
after-clashes owner key now r s =
    rw
      (
        after_digest owner key now r,
        after_digest owner key now s,
        after_key_id owner key now r,
        after_key_id owner key now s,
      )
      refl

revoke-clashes :
    (owner key : String) (now : ℕ) (r : KeyRow) (keys : Keys)
    → any (clashes (after owner key now r)) (revoke keys owner key now).0 ≡ any (clashes r) keys
unfolding revoke
revoke-clashes owner key now r [] = refl
revoke-clashes owner key now r (s ∷ keys) =
    ground (arith, after-clashes owner key now r s, revoke-clashes owner key now r keys)

revoke-IsUnique :
    (owner key : String) (now : ℕ) (keys : Keys)
    → IsUnique keys
    → IsUnique (revoke keys owner key now).0
unfolding revoke
revoke-IsUnique owner key now [] h = tt
revoke-IsUnique owner key now (r ∷ keys) h =
    (revoke-clashes owner key now r keys ∙ h.0, revoke-IsUnique owner key now keys h.1)

revoke-has_digest :
    (owner key d : String) (now : ℕ) (keys : Keys)
    → any (has_digest d) (revoke keys owner key now).0 ≡ any (has_digest d) keys
unfolding revoke
revoke-has_digest owner key d now [] = refl
revoke-has_digest owner key d now (r ∷ keys) =
    rw (after_digest owner key now r, revoke-has_digest owner key d now keys) refl

after-is_live :
    (owner key d : String) (now : ℕ) (r : KeyRow)
    → is_live d r ≡ false
    → is_live d (after owner key now r) ≡ false
unfolding revoked_row
after-is_live owner key d now r h =
    if_either (λ (s : KeyRow). is_live d s ≡ false) (is_key owner key r) (ground (arith, h)) h

revoke-is_live :
    (owner key d : String) (now : ℕ) (keys : Keys)
    → any (is_live d) keys ≡ false
    → any (is_live d) (revoke keys owner key now).0 ≡ false
unfolding revoke
revoke-is_live owner key d now [] h = refl
revoke-is_live owner key d now (r ∷ keys) h =
    ground (arith, h, after-is_live owner key d now r, revoke-is_live owner key d now keys)

revoke-IsDead :
    (owner key d : String) (now : ℕ) (keys : Keys)
    → IsDead d keys
    → IsDead d (revoke keys owner key now).0
unfolding IsDead
revoke-IsDead owner key d now keys h =
    (revoke-has_digest owner key d now keys ∙ h.0, revoke-is_live owner key d now keys h.1)

no_digest_no_live :
    (d : String) (keys : Keys) → any (has_digest d) keys ≡ false → any (is_live d) keys ≡ false
no_digest_no_live d [] h = refl
no_digest_no_live d (r ∷ keys) h = ground (arith, h, no_digest_no_live d keys)

others_differ :
    (r : KeyRow) (d : String) (keys : Keys)
    → (r.digest == d) ≡ true
    → any (clashes r) keys ≡ false
    → any (has_digest d) keys ≡ false
unfolding clashes
others_differ r d [] e h = refl
others_differ r d (s ∷ keys) e h = ground (
  arith,
  h,
  e,
  others_differ r d keys,
  eq_iff r.digest d,
  eq_iff s.digest d,
  eq_iff r.digest s.digest,
)

dead_lookup :
    (d : String) (keys : Keys) (now : ℕ)
    → any (is_live d) keys ≡ false
    → when (is_valid now) (get_by_digest keys d) ≡ none
unfolding get_by_digest is_valid
dead_lookup d [] now h = refl
dead_lookup d (r ∷ keys) now h = elim (Bool-cases (r.digest == d)) [
  | inl c ↦ let gone : is_some r.info.revoked_at ≡ true = ground (arith, h, c) in rw (c, gone) refl
  | inr c ↦ rw c (dead_lookup d keys now (ground (arith, h)))
]

its_key_revoked :
    (d : String) (now : ℕ) (r : KeyRow)
    → is_live d (after r.info.owner_id r.info.key_id now r) ≡ false
unfolding is_key revoked_row
its_key_revoked d now r = rw (beq_refl r.info.owner_id, beq_refl r.info.key_id) (ground arith)

pub get_by_digest_found :
    (d : String) (info : ApiKeyInfo) (keys : Keys)
    → get_by_digest keys d ≡ some info
    → any (has_digest d) keys ≡ true
unfolding get_by_digest
get_by_digest_found d info [] e = ground (arith, e)
get_by_digest_found d info (r ∷ keys) e = ground (arith, e, get_by_digest_found d info keys)

revoke_kills :
    (d : String) (info : ApiKeyInfo) (now : ℕ) (keys : Keys)
    → IsUnique keys
    → get_by_digest keys d ≡ some info
    → any (is_live d) (revoke keys info.owner_id info.key_id now).0 ≡ false
unfolding get_by_digest revoke
revoke_kills d info now [] h e = refl
revoke_kills d info now (r ∷ keys) h e = elim (Bool-cases (r.digest == d)) [
  | inl c ↦
      let same : r.info ≡ info = ground (arith, e, c) in
      let behind = no_digest_no_live d keys (others_differ r d keys c h.0) in
      let here : is_live d (after info.owner_id info.key_id now r) ≡ false =
        rw (sym same) (its_key_revoked d now r) in
      rw (here, revoke-is_live info.owner_id info.key_id d now keys behind) refl
  | inr c ↦
      let found : get_by_digest keys d ≡ some info = ground (arith, e, c) in
      let here : is_live d (after info.owner_id info.key_id now r) ≡ false =
        after-is_live info.owner_id info.key_id d now r (rw c refl) in
      rw (here, revoke_kills d info now keys h.1 found) refl
]

get_by_digest-IsDead :
    (d : String) (info : ApiKeyInfo) (now : ℕ) (keys : Keys)
    → IsUnique keys
    → get_by_digest keys d ≡ some info
    → IsDead d (revoke keys info.owner_id info.key_id now).0
unfolding IsDead
get_by_digest-IsDead d info now keys h e = (
  revoke-has_digest info.owner_id info.key_id d now keys ∙ get_by_digest_found d info keys e,
  revoke_kills d info now keys h e,
)

module _ (P : Keys → Type 0) (keys : Keys) (old : P keys) where
  kept_require :
      (test : Bool) (x : Error) (m : Result (Keys × (String × ApiKeyInfo)))
      → P (kept_issue keys m)
      → P (kept_issue keys (require test x >> m))
  unfolding kept_issue
  kept_require false x m h = old
  kept_require true x m h = h

  kept_create :
      (m : Result Keys) (issued : String × ApiKeyInfo)
      → ((keys' : Keys) → m ≡ ok keys' → P keys')
      → P (kept_issue keys (m >>= λ keys'. ok (keys', issued)))
  unfolding kept_issue
  kept_create (err x) issued h = old
  kept_create (ok keys') issued h = h keys' refl

-- What a key's creation keeps, its issue keeps.
pub kept_issue_lem :
    (P : Keys → Type 0) (tools : Tools) (keys : Keys) (owner name : String) (expires : Option ℕ)
    (token key : String) (now : ℕ)
    → ((keys' : Keys) (info : ApiKeyInfo) (d : String) → create keys info d ≡ ok keys' → P keys')
    → P keys
    → P (kept_issue keys (issue tools keys owner name expires token key now))
unfolding issue
kept_issue_lem P tools keys owner name expires token key now new old =
    let api_key = "ena_" <> token in
    let info = new_info tools owner name expires api_key key now in
    let d = tools.digest_of api_key in
    let made =
      kept_create P keys old (create keys info d) (api_key, info) (λ keys' e. new keys' info d e) in
    let m = create keys info d >>= λ keys'. ok (keys', (api_key, info)) in
    kept_require P keys old (name_fits tools name) Error.validation
      (require (in_future now expires) Error.validation >> m)
      (kept_require P keys old (in_future now expires) Error.validation m made)

step-IsUnique :
    (tools : Tools) (keys : Keys) (c : KeyCall) → IsUnique keys → IsUnique (step tools keys c)
unfolding step
step-IsUnique tools keys (issues owner name expires token key now) h =
    kept_issue_lem IsUnique tools keys owner name expires token key now
      (λ keys' info d e. create-IsUnique keys keys' info d h e) h
step-IsUnique tools keys (revokes owner key now) h = revoke-IsUnique owner key now keys h

step-IsDead :
    (tools : Tools) (d : String) (keys : Keys) (c : KeyCall)
    → IsDead d keys
    → IsDead d (step tools keys c)
unfolding step
step-IsDead tools d keys (issues owner name expires token key now) h =
    kept_issue_lem (IsDead d) tools keys owner name expires token key now
      (λ keys' info j e. create-IsDead keys keys' info d j h e) h
step-IsDead tools d keys (revokes owner key now) h = revoke-IsDead owner key d now keys h

run-IsUnique :
    (tools : Tools) (calls : List KeyCall) (keys : Keys)
    → IsUnique keys
    → IsUnique (run tools keys calls)
unfolding run
run-IsUnique tools [] keys h = h
run-IsUnique tools (c ∷ calls) keys h =
    run-IsUnique tools calls (step tools keys c) (step-IsUnique tools keys c h)

run-IsDead :
    (tools : Tools) (d : String) (calls : List KeyCall) (keys : Keys)
    → IsDead d keys
    → IsDead d (run tools keys calls)
unfolding run
run-IsDead tools d [] keys h = h
run-IsDead tools d (c ∷ calls) keys h =
    run-IsDead tools d calls (step tools keys c) (step-IsDead tools d keys c h)

dead_refused :
    (tools : Tools) (keys : Keys) (api_key : String) (now : ℕ)
    → IsDead (tools.digest_of api_key) keys
    → owner_for_key tools keys api_key now ≡ err Error.auth_required
unfolding owner_for_key IsDead
dead_refused tools keys api_key now h =
    rw (dead_lookup (tools.digest_of api_key) keys now h.1) (ground arith)

-- After any calls of issue and revoke on an empty table, let an API key be found by its digest.
-- Once the key is revoked for its owner, it is refused for good: whatever keys are issued or
-- revoked afterwards, and at whatever time it is presented, `owner_for_key` raises
-- AuthRequiredError.
pub revoked_key_refused :
    (tools : Tools) (earlier later : List KeyCall) (api_key : String) (info : ApiKeyInfo)
    (now at : ℕ)
    → get_by_digest (run tools [] earlier) (tools.digest_of api_key) ≡ some info
    → owner_for_key tools
        (run tools (run tools [] earlier) (revokes info.owner_id info.key_id now ∷ later))
        api_key
        at
      ≡ err Error.auth_required
unfolding run step
revoked_key_refused tools earlier later api_key info now at e =
    let keys = run tools [] earlier in
    let d = tools.digest_of api_key in
    let dead = get_by_digest-IsDead d info now keys (run-IsUnique tools earlier [] tt) e in
    dead_refused tools (run tools (revoke keys info.owner_id info.key_id now).0 later) api_key at
      (run-IsDead tools d later (revoke keys info.owner_id info.key_id now).0 dead)
