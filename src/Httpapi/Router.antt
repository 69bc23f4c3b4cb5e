-- ===== src/Httpapi/Router.antt =====
-- api/internal/httpapi/router.go: authentication, authorization, the routes and the middleware
-- chain of NewRouter. A handler is a function on the state; a middleware takes the next handler.
pub mod Guarded
pub mod Bearer
pub mod Replies
use learning_center_referenc.Prelude.{
  ℕ, ◌+◌, String, Bool, true, false, not, ◌||◌, ◌&&◌, Option, none, some, List, [], ◌∷◌, ◌++◌, Text,
  codes, text_eq, fields, lower, ◌==◌, ltb, leb, if◌then◌else◌, map,
}
use learning_center_referenc.Clock.{Instant}
use learning_center_referenc.Learning.{Member, has_role}
use learning_center_referenc.Authn.{
  AuthError, invalid_credential, unavailable, Verdict, granted, denied, Claims, has_scope,
}
use learning_center_referenc.Store.Result.{Err, not_found, Result, ok, err}
use learning_center_referenc.Httpapi.Message
use learning_center_referenc.Httpapi.Message.{
  error, Response, write_json, Endpoint, Request, health, eligibility, member_credentials, courses,
  enroll, complete_lesson, dashboard, compliance, unmatched, wrong_method,
}
use learning_center_referenc.Httpapi.Deps.{Deps, verify_with, verify_claims_with}
use learning_center_referenc.Httpapi.Handlers.{
  handle_health, handle_eligibility, handle_member_credentials, handle_courses, handle_enroll,
  handle_complete_lesson, handle_dashboard, handle_compliance,
}
use learning_center_referenc.Httpapi.RateLimit.{Limiter, allow}
use learning_center_referenc.Httpapi.Concurrency.{concurrent_limit, acquire}
use learning_center_referenc.Httpapi.Clients.{limited_client}

-- strings.EqualFold with a word of ASCII letters that no other code point folds to.
abbrev equal_fold : Text → Text → Bool
equal_fold s t = text_eq (map lower s) (map lower t)

abbrev pub second_of_two : List Text → Option Text
second_of_two (scheme ∷ raw ∷ []) =
    if not (equal_fold scheme (codes "Bearer")) || text_eq raw [] then none else some raw
second_of_two _ = none

unfoldable pub bearer_token : Text → Option Text
bearer_token header = second_of_two (fields header)

-- credentials.Scope
abbrev pub credentials_scope : Text
credentials_scope = codes "credentials:read"

abbrev pub Handler : Type 0 → Type 0
Handler S = S → S × Response

-- A handler that answers without touching the state.
abbrev pub answering : {S : Type 0} → Response → Handler S
answering r s = (s, r)

abbrev pub reading : {S : Type 0} → (S → Response) → Handler S
reading f s = (s, f s)

-- requireRole, on the member of the request's context.
unfoldable pub require_role : {S : Type 0} → String → (Member → Handler S) → Member → Handler S
require_role role next m =
    if not (has_role m role) then answering (write_json 403 (error "insufficient role")) else next m

module _ {S : Type 0} (deps : Deps S) where
  abbrev pub denied_response : AuthError → Response
  denied_response unavailable = write_json 503 (error "authentication not configured")
  denied_response invalid_credential = write_json 401 (error "invalid bearer token")

  abbrev pub unresolved : Err → Response
  unresolved not_found = write_json 403 (error "identity is not provisioned")
  unresolved _ = write_json 500 (error "internal error")

  abbrev pub identified : (Member → Handler S) → Text → Handler S
  identified next subject s = elim deps.identity [
    | none ↦ (s, write_json 503 (error "identity store unavailable"))
    | some resolve ↦ elim (resolve subject s) [ err e ↦ (s, unresolved e) | ok m ↦ next m s ]
  ]

  unfoldable pub authenticate : (Member → Handler S) → Text → Handler S
  authenticate next authorization s = elim (bearer_token authorization) [
    | none ↦ (s, write_json 401 (error "bearer token required"))
    | some raw ↦ elim (verify_with deps.auth raw) [
      | denied e ↦ (s, denied_response e)
      | granted subject ↦ identified next subject s
    ]
  ]

  abbrev pub service_denied : AuthError → Response
  service_denied unavailable = write_json 503 (error "authentication not configured")
  service_denied invalid_credential = write_json 401 (error "unauthorized")

  unfoldable pub authenticate_service : Text → Handler S → Text → Handler S
  authenticate_service scope next authorization s = elim (bearer_token authorization) [
    | none ↦ (s, write_json 401 (error "unauthorized"))
    | some raw ↦ elim (verify_claims_with deps.service_auth raw) [
      | denied e ↦ (s, service_denied e)
      | granted claims ↦
          if not (has_scope claims scope) then (s, write_json 403 (error "forbidden")) else next s
    ]
  ]

  -- The handlers of the group that authenticates a member, with the role they require.
  unfoldable pub member_route : Request → Option (String × (Member → Handler S))
  member_route req = elim req.endpoint [
    | courses ↦ some ("learner", λ m. reading (handle_courses deps))
    | enroll ↦ some ("learner", λ m. handle_enroll deps m req.param)
    | complete_lesson ↦
        some ("learner", λ m. handle_complete_lesson deps m req.param req.lesson_param)
    | dashboard ↦ some ("learner", λ m. reading (handle_dashboard deps m))
    | compliance ↦ some ("admin", λ m. reading (handle_compliance deps))
    | health ↦ none
    | eligibility ↦ none
    | member_credentials ↦ none
    | unmatched ↦ none
    | wrong_method ↦ none
  ]

  abbrev not_routed : Response
  not_routed = write_json 404 (error "route not found")

  -- The routes outside that group, and what answers where none matches.
  unfoldable pub open_route : Request → Handler S
  open_route req = elim req.endpoint [
    | health ↦ reading (handle_health deps)
    | eligibility ↦ reading (handle_eligibility deps req.param)
    | member_credentials ↦
        authenticate_service credentials_scope (reading (handle_member_credentials deps req.param))
          req.authorization
    | wrong_method ↦ answering (write_json 405 (error "method not allowed"))
    | unmatched ↦ answering not_routed
    | courses ↦ answering not_routed
    | enroll ↦ answering not_routed
    | complete_lesson ↦ answering not_routed
    | dashboard ↦ answering not_routed
    | compliance ↦ answering not_routed
  ]

  -- The routes of NewRouter.
  unfoldable pub dispatch : Request → Handler S
  dispatch req = elim (member_route req) [
    | none ↦ open_route req
    | some (role, handler) ↦ authenticate (require_role role handler) req.authorization
  ]
