-- ===== src/ApiKey/Issued.antt =====
-- An issued key lets its owner in until it is revoked or expires.
use evernight_ai.Prelude.{
  ℕ, String, ◌≡◌, refl, sym, ap, inl, inr, Bool, true, false, ◌&&◌, Option, some, List, [], ◌∷◌,
  arith, ◌==◌, nat_eq, string_eq, option_eq, pair_eq, beq_refl, Bool-cases, any, Result, ok, err,
  Error, ◌>>=◌, require, ok-injective,
}
use Prim.Native.String.{slice}
use Prim.Native.String.{◌++◌ as ◌<>◌}
use evernight_ai.ApiKey.{
  ApiKeyInfo, Keys, create, get_by_digest, is_key, revoked_row, revoke, Tools, issue, is_valid,
  owner_for_key, in_future, name_fits, new_info, KeyCall, issues, revokes, step, run,
}
use evernight_ai.ApiKey.Revoked.{
  row_of, new_digest, after_digest, created, get_by_digest_found, kept_issue_lem, after,
}
use text.Mathlib.TextPositions.{slice-append_left}

-- The call revokes the key for its owner.
abbrev pub is_revoked_by : ApiKeyInfo → KeyCall → Bool
is_revoked_by info (issues owner_id name expires_at token key_id now) = false
is_revoked_by info (revokes owner_id key_id now) =
    (info.owner_id == owner_id) && (info.key_id == key_id)

create_found :
    (keys keys' : Keys) (info i : ApiKeyInfo) (d j : String)
    → get_by_digest keys d ≡ some info
    → create keys i j ≡ ok keys'
    → get_by_digest keys' d ≡ some info
unfolding get_by_digest
create_found keys keys' info i d j h e =
    let (free, same) = created keys keys' i j e in
    let other : (j == d) ≡ false =
      new_digest (row_of i j) keys d free (get_by_digest_found d info keys h) in
    rw (same, other) h

revoke_found :
    (keys : Keys) (info : ApiKeyInfo) (d owner key : String) (now : ℕ)
    → ((info.owner_id == owner) && (info.key_id == key)) ≡ false
    → get_by_digest keys d ≡ some info
    → get_by_digest (revoke keys owner key now).0 d ≡ some info
unfolding get_by_digest revoke is_key revoked_row
revoke_found [] info d owner key now other h = h
revoke_found (r ∷ keys) info d owner key now other h = elim (Bool-cases (r.digest == d)) [
  | inl c ↦
      let same : r.info ≡ info = ground (arith, h, c) in
      let kept : is_key owner key r ≡ false = rw same other in rw (kept, c, same) refl
  | inr c ↦
      let passed : ((after owner key now r).digest == d) ≡ false =
        rw (after_digest owner key now r) c in
      rw (passed) (revoke_found keys info d owner key now other (ground (arith, h, c)))
]

step_found :
    (tools : Tools) (keys : Keys) (info : ApiKeyInfo) (d : String) (c : KeyCall)
    → is_revoked_by info c ≡ false
    → get_by_digest keys d ≡ some info
    → get_by_digest (step tools keys c) d ≡ some info
unfolding step
step_found tools keys info d (issues owner name expires token key now) other h =
    kept_issue_lem (λ ks. get_by_digest ks d ≡ some info) tools keys owner name expires token key
      now (λ keys' i j e. create_found keys keys' info i d j h e) h
step_found tools keys info d (revokes owner key now) other h =
    revoke_found keys info d owner key now other h

run_found :
    (tools : Tools) (calls : List KeyCall) (keys : Keys) (info : ApiKeyInfo) (d : String)
    → any (is_revoked_by info) calls ≡ false
    → get_by_digest keys d ≡ some info
    → get_by_digest (run tools keys calls) d ≡ some info
unfolding run
run_found tools [] keys info d other h = h
run_found tools (c ∷ calls) keys info d other h =
    run_found tools calls (step tools keys c) info d (ground (arith, other))
      (step_found tools keys info d c (ground (arith, other)) h)

starts_ena : (token : String) → (slice ("ena_" <> token) 0 4 == "ena_") ≡ true
starts_ena token = rw (slice-append_left "ena_" token) refl

chain_ok :
    (test next : Bool) (x : Error) (m : Result Keys) (q : String × ApiKeyInfo)
    (p : Keys × (String × ApiKeyInfo))
    → (require test x >>= λ done. require next x >>= λ done. m >>= λ ks. ok (ks, q)) ≡ ok p
    → (m ≡ ok p.0) × (q ≡ p.1)
chain_ok false next x m q p e = cc
chain_ok true false x m q p e = cc
chain_ok true true x (err y) q p e = cc
chain_ok true true x (ok ks) q p e =
    (ap ok (ap (λ z. z.0) (ok-injective e)), ap (λ z. z.1) (ok-injective e))

-- What a returned issue has done.
issued :
    (tools : Tools) (keys keys' : Keys) (owner name token key api_key : String) (expires : Option ℕ)
    (info : ApiKeyInfo) (now : ℕ)
    → issue tools keys owner name expires token key now ≡ ok (keys', (api_key, info))
    → (api_key ≡ ("ena_" <> token))
      × (info ≡ new_info tools owner name expires api_key key now)
      × (keys' ≡ row_of info (tools.digest_of api_key) ∷ keys)
unfolding issue
issued tools keys keys' owner name token key api_key expires info now e =
    let api = "ena_" <> token in
    let i = new_info tools owner name expires api key now in
    let d = tools.digest_of api in
    let (made, same) =
      chain_ok (name_fits tools name) (in_future now expires) Error.validation (create keys i d)
        (api, i) (keys', (api_key, info)) e in
    let p : api_key ≡ api = sym (ap (λ z. z.0) same) in
    let q : info ≡ i = sym (ap (λ z. z.1) same) in
    (p, rw p q, rw (p, q) ((created keys keys' i d made).1))

-- When `issue` has returned an API key and its information, and no later call revokes that key for
-- its owner, then `owner_for_key` returns the owner for this API key, whatever other keys are issued
-- or revoked in the meantime, at every time before the key's expiry if it has one.
pub issued_key_accepted :
    (tools : Tools) (keys keys' : Keys) (owner name token key api_key : String) (expires : Option ℕ)
    (info : ApiKeyInfo) (now at : ℕ) (later : List KeyCall)
    → issue tools keys owner name expires token key now ≡ ok (keys', (api_key, info))
    → any (is_revoked_by info) later ≡ false
    → in_future at expires ≡ true
    → owner_for_key tools (run tools keys' later) api_key at ≡ ok owner
unfolding owner_for_key new_info get_by_digest is_valid
issued_key_accepted tools keys keys' owner name token key api_key expires info now at later e other
      early =
    let (p, q, s) = issued tools keys keys' owner name token key api_key expires info now e in
    let d = tools.digest_of api_key in
    let here : get_by_digest keys' d ≡ some info = rw (s, beq_refl d) refl in
    let found = run_found tools later keys' info d other here in
    rw (found, q, p, starts_ena token, early) refl
