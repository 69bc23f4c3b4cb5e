-- ===== src/Tests/Rules.antt =====
-- Eligibility, the credentials contract and token scopes on small inputs.
use learning_center_referenc.Prelude.{
  ◌+◌, ◌*◌, ◌/◌, ◌≤◌, ◌≡◌, refl, ◌≢◌, ◌↔◌, ◌⊎◌, true, false, ◌&&◌, Option, none, some, List, [],
  ◌∷◌, Text, codes, arith, exists, is_blank,
}
use learning_center_referenc.Clock.{day, pos, duration_of_days, format_date, format_rfc3339}
use learning_center_referenc.Safeguarding.{eligible, suspended, Inputs, current, evaluate}
use learning_center_referenc.Safeguarding.Laws.{
  AllCurrent, current_iff, current_antitone, evaluate-eligible_iff, evaluate-suspended_iff,
  evaluate-eligible_antitone,
}
use learning_center_referenc.Credentials.{Record, build}
use learning_center_referenc.Credentials.Agreement.{build_agrees}
use learning_center_referenc.Authn.{
  Claims, Token, Json, granted, has_scope, decode_scopes, merge_scopes, oidc_verify_claims,
}
use learning_center_referenc.Authn.Scopes.{lists_scope, merge_scopes_iff, oidc_verify_claims_iff}
use learning_center_referenc.Store.Compliance.{
  inputs_of, hold_in_effect, check_in_effect, training_in_effect,
}
use learning_center_referenc.Store.Compliance.Facts.{runs}
use learning_center_referenc.Store.Compliance.Eligible.{uncovered, evaluate-inputs_of_iff}
use learning_center_referenc.Tests.Fixtures.{env, fresh_db}

-- Everything is current until the end of day 2.
abbrev inputs : Inputs
inputs = record {
  now = 1000;
  safe_sport_expires = some (2 * day);
  background_check_expires = some (2 * day);
  active_hold_sources = [];
  grace_days = pos 0;
  role_credential_required = false;
  role_credential_expires = none;
}

inputs-eligible : (evaluate inputs).status ≡ eligible
unfolding evaluate duration_of_days
inputs-eligible = refl

check_is_current : (current 1000 (some (2 * day)) (pos 1) ≡ true) ↔ (1000 / day ≤ 2 + 1)
check_is_current = current_iff 1000 2 1 (ground arith)

still_current : current 1000 (some (2 * day)) (pos 0) ≡ true
unfolding evaluate duration_of_days
still_current = refl

still_current_earlier : current 500 (some (2 * day)) (pos 0) ≡ true
still_current_earlier =
    current_antitone 500 1000 (some (2 * day)) (pos 0) (ground arith) still_current

facts_eligible :
    ((evaluate inputs).status ≡ eligible) ↔ ((inputs.active_hold_sources ≡ []) × AllCurrent inputs)
facts_eligible = evaluate-eligible_iff inputs

inputs_suspended_iff : ((evaluate inputs).status ≡ suspended) ↔ (inputs.active_hold_sources ≢ [])
inputs_suspended_iff = evaluate-suspended_iff inputs

earlier_eligible : (evaluate (record inputs { now = 500 })).status ≡ eligible
earlier_eligible = evaluate-eligible_antitone inputs 500 (ground arith) inputs-eligible

abbrev on_file : Record
on_file = record {
  member_id = 1;
  subject = codes "demo|learner";
  roles = "learner" ∷ [];
  inputs = inputs;
  role_credentials = [];
}

build_agrees_example :
    (((build on_file).eligibility.status ≡ eligible) ↔ (
      ((build on_file).holds ≡ [])
      × ((build on_file).safeguarding.safe_sport_training.is_valid ≡ true)
      × ((build on_file).safeguarding.background_check.is_valid ≡ true)
      × (false ≡ true → current 1000 none (pos 0) ≡ true)))
    × (((build on_file).eligibility.status ≡ suspended) ↔ ((build on_file).holds ≢ []))
build_agrees_example = build_agrees on_file

evaluate-inputs_of_iff_example : ((evaluate (inputs_of env 1 fresh_db)).status ≡ eligible) ↔ (
    (exists (hold_in_effect env 1) fresh_db.holds ≡ false)
    × (exists (λ t. training_in_effect env 1 t && runs env t.expires_at) fresh_db.trainings ≡ true)
    × (exists (λ b. check_in_effect env 1 b && runs env b.expires_at) fresh_db.background_checks
        ≡ true)
    × (exists (uncovered env 1 fresh_db) fresh_db.member_roles ≡ false))
evaluate-inputs_of_iff_example = evaluate-inputs_of_iff env 1 fresh_db

abbrev scopes : List Text
scopes = codes " credentials:read " ∷ []

client_scopes_merged :
    (has_scope
        (record { subject = codes "client"; scopes = merge_scopes scopes [] })
        (codes "credentials:read")
      ≡ true)
    ↔ ((codes "credentials:read" ≢ [])
        × ((lists_scope scopes (codes "credentials:read") ≡ true)
            ⊎ (lists_scope [] (codes "credentials:read") ≡ true)))
client_scopes_merged = merge_scopes_iff scopes [] (codes "client") (codes "credentials:read")

abbrev token : Token
token = record {
  subject = codes "client";
  scope = some (Json.str (codes "credentials:read"));
  scp = none;
}

abbrev verify : Text → Option Token
verify raw = some token

abbrev client_claims : Claims
client_claims = record { subject = codes "client"; scopes = scopes }

client_claims_granted : (oidc_verify_claims verify (codes "t") ≡ granted client_claims) ↔ (
    (t : Token) × (a : List Text) × (b : List Text) × (verify (codes "t") ≡ some t)
    × (is_blank t.subject ≡ false)
    × (decode_scopes t.scope ≡ some a)
    × (decode_scopes t.scp ≡ some b)
    × (client_claims ≡ record { subject = t.subject; scopes = merge_scopes a b }))
client_claims_granted = oidc_verify_claims_iff verify (codes "t") client_claims

-- 2027-06-01 is day 740132 of the count.
format_date_run : format_date (740132 * 86400000000000) ≡ "2027-06-01"
unfolding format_date
format_date_run = refl

format_rfc3339_run :
    format_rfc3339 (740132 * 86400000000000 + 45296000000000) ≡ "2027-06-01T12:34:56Z"
unfolding format_rfc3339
format_rfc3339_run = refl
