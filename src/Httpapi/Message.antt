-- ===== src/Httpapi/Message.antt =====
-- Requests and responses. A request is what the router matched, with its path parameters; a body
-- is the value that is encoded as JSON.
use learning_center_referenc.Prelude.{
  ℕ, String, Bool, true, false, ◌&&◌, ◌||◌, Option, none, some, List, [], ◌∷◌, Text, ◌==◌, leb,
  if◌then◌else◌,
}
use learning_center_referenc.Learning.{
  CourseSummary, EnrollmentProgress, Dashboard, ComplianceMember,
}
use learning_center_referenc.Safeguarding.{Status}
use learning_center_referenc.Credentials

pub data Body : Type 0 where
  error : String → Body
  health : String → String → Body
  eligibility : Text → Status → String → Body
  credentials : Credentials.Response → Body
  courses : List CourseSummary → Body
  enrolled : Bool → EnrollmentProgress → Body
  recorded : Bool → EnrollmentProgress → Body
  dashboard : Dashboard → Body
  compliance : List ComplianceMember → Body

pub record Response : Type 0 where
  pub status : ℕ
  pub headers : List (String × String)
  pub body : Body

-- The status is written once, after the content type.
unfoldable pub write_json : ℕ → Body → Response
write_json status body = record {
  status = status;
  headers = ("Content-Type", "application/json") ∷ [];
  body = body;
}

-- The route that chi matched.
pub data Endpoint : Type 0 where
  health eligibility member_credentials courses enroll complete_lesson dashboard compliance :
      Endpoint
  unmatched wrong_method : Endpoint

pub record Request : Type 0 where
  pub endpoint : Endpoint
  -- The path parameters: the first one, and the lesson of a completion.
  pub param : Text
  pub lesson_param : Text
  -- The header Authorization, empty if it is not sent.
  pub authorization : Text
  -- The connection's address, and the header X-Forwarded-For.
  pub remote : Text
  pub forwarded : Text

abbrev is_hex : ℕ → Bool
is_hex c = (leb b'0' c && leb c b'9') || ((leb b'a' c && leb c b'f') || (leb b'A' c && leb c b'F'))

-- What follows `n` hexadecimal digits.
unfoldable pub hex_run : ℕ → Text → Option Text
hex_run ℕ.zero s = some s
hex_run (ℕ.suc n) [] = none
hex_run (ℕ.suc n) (c ∷ s) = let rest = hex_run n s in if is_hex c then rest else none

unfoldable pub dash : Option Text → Option Text
dash none = none
dash (some []) = none
dash (some (c ∷ s)) = if c == b'-' then some s else none

abbrev then_hex : ℕ → Option Text → Option Text
then_hex n none = none
then_hex n (some s) = hex_run n s

abbrev is_end : Option Text → Bool
is_end (some []) = true
is_end _ = false

-- uuidRe.MatchString
unfoldable pub is_uuid : Text → Bool
unfolding hex_run dash
is_uuid s =
    is_end
      (then_hex 12 (dash (then_hex 4 (dash (then_hex 4 (dash (then_hex 4 (dash (hex_run 8 s)))))))))
