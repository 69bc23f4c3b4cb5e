-- ===== src/Credentials.antt =====
-- api/internal/credentials/credentials.go: the response of the learning-center.credentials.v1
-- contract, derived from the record that the store loads.
pub mod Agreement
use learning_center_referenc.Prelude.{
  ℕ, String, Text, Bool, true, not, Option, none, some, List, map, ◌&&◌, ltb,
}
use learning_center_referenc.Clock.{Instant, ℤ, format_date, format_rfc3339}
use learning_center_referenc.Learning.{Uuid}
use learning_center_referenc.Safeguarding.{Status, Inputs, current, evaluate}

abbrev pub contract : String
contract = "learning-center.credentials.v1"

abbrev pub scope : String
scope = "credentials:read"

pub record RoleCredential : Type 0 where
  pub role : String
  pub credential_type : String
  pub issued_at : Instant
  pub expires_at : Instant

pub record Record : Type 0 where
  pub member_id : Uuid
  pub subject : Text
  pub roles : List String
  pub inputs : Inputs
  pub role_credentials : List RoleCredential

pub record Member : Type 0 where
  pub id : Uuid
  pub subject : Text
  pub roles : List String

pub record Eligibility : Type 0 where
  pub status : Status
  pub reason : String

pub record Hold : Type 0 where
  pub source : String
  pub is_active : Bool

pub record ExpiringFact : Type 0 where
  pub expires_at : Option String
  pub is_valid : Bool

pub record Safeguarding : Type 0 where
  pub safe_sport_training : ExpiringFact
  pub background_check : ExpiringFact

pub record RoleCredentialStatus : Type 0 where
  pub role : String
  pub credential_type : String
  pub issued_at : String
  pub expires_at : String
  pub is_valid : Bool

pub record Response : Type 0 where
  pub contract_id : String
  pub member : Member
  pub as_of : String
  pub eligibility : Eligibility
  pub holds : List Hold
  pub safeguarding : Safeguarding
  pub role_credentials : List RoleCredentialStatus

unfoldable pub expiring_fact : Instant → Option Instant → ℤ → ExpiringFact
expiring_fact now expires grace_days = record {
  expires_at = elim expires [ none ↦ none | some e ↦ some (format_date e) ];
  is_valid = current now expires grace_days;
}

-- In effect now: already issued, and not expired.
unfoldable pub role_credential_status : Inputs → RoleCredential → RoleCredentialStatus
role_credential_status i c = record {
  role = c.role;
  credential_type = c.credential_type;
  issued_at = format_date c.issued_at;
  expires_at = format_date c.expires_at;
  is_valid = not (ltb i.now c.issued_at) && current i.now (some c.expires_at) i.grace_days;
}

abbrev pub active_hold : String → Hold
active_hold source = record { source = source; is_active = true }

unfoldable pub build : Record → Response
unfolding expiring_fact role_credential_status
build r =
    let i = r.inputs in
    let decision = evaluate i in
    record {
      contract_id = contract;
      member = record { id = r.member_id; subject = r.subject; roles = r.roles };
      as_of = format_rfc3339 i.now;
      eligibility = record { status = decision.status; reason = decision.reason };
      holds = map active_hold i.active_hold_sources;
      safeguarding = record {
        safe_sport_training = expiring_fact i.now i.safe_sport_expires i.grace_days;
        background_check = expiring_fact i.now i.background_check_expires i.grace_days;
      };
      role_credentials = map (role_credential_status i) r.role_credentials;
    }
