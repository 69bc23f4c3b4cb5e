-- ===== src/Httpapi/Deps.antt =====
-- The dependencies that main injects into the router: interfaces over a state `S`, the store and
-- the identity provider behind them. A `nil` field is `none`.
use learning_center_referenc.Prelude.{ℕ, Bool, Option, none, some, List, Text}
use learning_center_referenc.Learning.{
  Uuid, Member, CourseSummary, EnrollmentProgress, Dashboard, ComplianceMember,
}
use learning_center_referenc.Safeguarding.{Inputs}
use learning_center_referenc.Credentials.{Record}
use learning_center_referenc.Authn.{unavailable, Verdict, denied, Claims}
use learning_center_referenc.Store.Result.{Result}

pub record LearningStore (S : Type 0) : Type 0 where
  pub list_published_courses : S → Result (List CourseSummary)
  pub enroll : Uuid → Text → S → S × Result (EnrollmentProgress × Bool)
  pub complete_lesson : Uuid → Text → Text → S → S × Result (EnrollmentProgress × Bool)
  pub load_dashboard : Uuid → S → Result Dashboard
  pub list_compliance : S → Result (List ComplianceMember)

pub record Deps (S : Type 0) : Type 0 where
  pub eligibility : Option (Text → S → Result Inputs)
  pub credentials : Option (Text → S → Result Record)
  pub identity : Option (Text → S → Result Member)
  pub learning : Option (LearningStore S)
  pub auth : Option (Text → Verdict Text)
  pub service_auth : Option (Text → Verdict Claims)
  -- Whether the database answers a ping.
  pub db : Option (S → Bool)
  pub rate_limit_per_minute : ℕ
  pub trust_proxy : Bool
  pub max_concurrent_requests : ℕ

-- NewRouter puts UnavailableVerifier where no verifier is given.
unfoldable pub verify_with : Option (Text → Verdict Text) → Text → Verdict Text
verify_with none raw = denied unavailable
verify_with (some verify) raw = verify raw

unfoldable pub verify_claims_with : Option (Text → Verdict Claims) → Text → Verdict Claims
verify_claims_with none raw = denied unavailable
verify_claims_with (some verify) raw = verify raw
