-- ===== src/Tests/ApiKeys.antt =====
-- API keys at concrete inputs.
use evernight_ai.Prelude.{◌≡◌, refl, none, some, List, [], ◌∷◌, ok, err, Error}
use evernight_ai.ApiKey.{
  ApiKeyInfo, Keys, Tools, issue, new_info, revoke_key, owner_for_key, KeyCall, issues, revokes,
  run, get_by_digest, revoke, create, is_key, clashes, name_fits, in_future, is_valid, step,
  kept_issue,
}
use evernight_ai.ApiKey.Revoked.{revoked_key_refused}
use evernight_ai.ApiKey.Issued.{issued_key_accepted}

-- Every text is its own digest and has nothing to strip.
abbrev plain_tools : Tools
plain_tools = record { strip = λ s. s; digest_of = λ s. s }

abbrev two_issues : List KeyCall
two_issues =
    issues "ann" "laptop" none "red" "k1" 5 ∷ issues "bob" "phone" (some 9) "blue" "k2" 6 ∷ []

abbrev laptop : ApiKeyInfo
laptop = record {
  key_id = "k1";
  owner_id = "ann";
  name = "laptop";
  prefix = "ena_red";
  created_at = 5;
  expires_at = none;
  revoked_at = none;
}

abbrev phone : ApiKeyInfo
phone = record {
  key_id = "k2";
  owner_id = "bob";
  name = "phone";
  prefix = "ena_blue";
  created_at = 6;
  expires_at = some 9;
  revoked_at = none;
}

abbrev two_keys : Keys
two_keys =
    record { info = phone; digest = "ena_blue" } ∷ record { info = laptop; digest = "ena_red" } ∷ []

run_two : run plain_tools [] two_issues ≡ two_keys
unfolding run step kept_issue issue create clashes name_fits in_future new_info
run_two = refl

expired_key : owner_for_key plain_tools two_keys "ena_blue" 9 ≡ err Error.auth_required
unfolding owner_for_key get_by_digest is_valid in_future
expired_key = refl

revoke_other_owner : revoke_key two_keys "bob" "k1" 7 ≡ err Error.not_found
unfolding revoke_key revoke is_key
revoke_other_owner = refl

issue_past : issue plain_tools [] "ann" "laptop" (some 5) "red" "k1" 5 ≡ err Error.validation
unfolding issue name_fits in_future
issue_past = refl

revoked_key_refused_example :
    owner_for_key plain_tools
      (run plain_tools (run plain_tools [] two_issues) (
        revokes "ann" "k1" 7
        ∷ issues "ann" "laptop" none "green" "k3" 8
        ∷ revokes "ann" "k1" 9
        ∷ []))
      "ena_red"
      8
    ≡ err Error.auth_required
unfolding run step kept_issue issue create clashes name_fits in_future new_info get_by_digest
revoked_key_refused_example =
    revoked_key_refused plain_tools two_issues
      (issues "ann" "laptop" none "green" "k3" 8 ∷ revokes "ann" "k1" 9 ∷ []) "ena_red" laptop 7 8
      refl

issued_key_accepted_example :
    owner_for_key plain_tools
      (run plain_tools two_keys
        (revokes "ann" "k1" 7 ∷ issues "ann" "laptop" none "green" "k3" 7 ∷ []))
      "ena_blue"
      8
    ≡ ok "bob"
unfolding issue create clashes name_fits in_future new_info
issued_key_accepted_example =
    issued_key_accepted plain_tools (record { info = laptop; digest = "ena_red" } ∷ []) two_keys
      "bob" "phone" "blue" "k2" "ena_blue" (some 9) phone 6 8
      (revokes "ann" "k1" 7 ∷ issues "ann" "laptop" none "green" "k3" 7 ∷ []) refl refl refl
