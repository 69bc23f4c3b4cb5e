-- ===== src/Httpapi/Router/Guarded.antt =====
-- Who gets through the router to the handlers of a member.
use learning_center_referenc.Prelude.{
  ◌≡◌, refl, ◌≢◌, ◌⊎◌, inl, inr, String, Bool, true, false, some, Text, arith, Option-cases,
  Bool-cases,
}
use learning_center_referenc.Learning.{Member, has_role}
use learning_center_referenc.Authn.{AuthError, Verdict, granted, denied, Claims, has_scope}
use learning_center_referenc.Store.Result.{Result, ok, Result-cases}
use learning_center_referenc.Httpapi.Message.{
  Response, write_json, Endpoint, Request, health, eligibility, courses, dashboard, compliance,
  unmatched, wrong_method, enroll, complete_lesson, member_credentials,
}
use learning_center_referenc.Httpapi.Deps.{Deps, verify_with, verify_claims_with}
use learning_center_referenc.Httpapi.Router.{
  Handler, reading, bearer_token, credentials_scope, require_role, authenticate,
  authenticate_service, member_route, open_route, dispatch,
}
-- The request carries a token of a member who holds the role.
use learning_center_referenc.Httpapi.Handlers.{
  handle_member_credentials, handle_courses, handle_dashboard, handle_compliance,
}

pub record IsAuthorized {S : Type 0} (deps : Deps S) (req : Request) (s : S) (role : String)
    (m : Member) : Type 0 where
  pub raw : Text
  pub subject : Text
  pub resolve : Text → S → Result Member
  pub carried : bearer_token req.authorization ≡ some raw
  pub verified : verify_with deps.auth raw ≡ granted subject
  pub configured : deps.identity ≡ some resolve
  pub resolved : resolve subject s ≡ ok m
  pub has : has_role m role ≡ true

-- A refusal that leaves the state as it was.
abbrev pub IsRefusal : {S : Type 0} → S → S × Response → Type 0
IsRefusal s (s', r) =
    (s' ≡ s) × ((r.status ≡ 401) ⊎ ((r.status ≡ 403) ⊎ ((r.status ≡ 500) ⊎ (r.status ≡ 503))))

pub Verdict-cases :
    {A : Type 0} (v : Verdict A) → ((a : A) × (v ≡ granted a)) ⊎ ((e : AuthError) × (v ≡ denied e))
Verdict-cases (granted a) = inl (a, refl)
Verdict-cases (denied e) = inr (e, refl)

require_role-refuses :
    {S : Type 0} (role : String) (next : Member → Handler S) (m : Member) (s : S)
    → has_role m role ≡ false
    → IsRefusal s (require_role role next m s)
unfolding require_role write_json
require_role-refuses role next m s h = ground arith

require_role-next :
    {S : Type 0} (role : String) (next : Member → Handler S) (m : Member) (s : S)
    → has_role m role ≡ true
    → require_role role next m s ≡ next m s
unfolding require_role
require_role-next role next m s h = ground arith

-- The router hands a request for a member's route to the route's handler only with a verified
-- token of a member who has the route's role, and then the answer is the handler's; any other
-- request for it is answered 401, 403, 500 or 503 and leaves the state as it was.
pub dispatch_guarded :
    {S : Type 0} (deps : Deps S) (req : Request) (role : String) (handler : Member → Handler S)
    (s : S)
    → member_route deps req ≡ some (role, handler)
    → ((m : Member) × IsAuthorized deps req s role m × (dispatch deps req s ≡ handler m s))
      ⊎ IsRefusal s (dispatch deps req s)
unfolding dispatch authenticate write_json
dispatch_guarded deps req role handler s r = elim (Option-cases (bearer_token req.authorization)) [
  | inl n ↦ inr (ground arith)
  | inr (raw, carried) ↦ elim (Verdict-cases (verify_with deps.auth raw)) [
    | inr (e, bad) ↦ inr (ground arith)
    | inl (subject, verified) ↦ elim (Option-cases deps.identity) [
      | inl n ↦ inr (ground arith)
      | inr (resolve, configured) ↦ elim (Result-cases (resolve subject s)) [
        | inr (e, bad) ↦ inr (ground arith)
        | inl (m, resolved) ↦ elim (Bool-cases (has_role m role)) [
          | inl has ↦ inl (
            m,
            record {
              raw = raw;
              subject = subject;
              resolve = resolve;
              carried = carried;
              verified = verified;
              configured = configured;
              resolved = resolved;
              has = has;
            },
            ground (arith, require_role-next role handler m s has),
          )
          | inr lacks ↦ inr (ground (arith, require_role-refuses role handler m s lacks))
        ]
      ]
    ]
  ]
]

authenticate_service-keeps :
    {S : Type 0} (deps : Deps S) (scope : Text) (answer : S → Response) (authorization : Text)
    (s : S)
    → (authenticate_service deps scope (reading answer) authorization s).0 ≡ s
unfolding authenticate_service
authenticate_service-keeps deps scope answer authorization s =
    elim (Option-cases (bearer_token authorization)) [
      | inl n ↦ ground arith
      | inr (raw, carried) ↦ elim (Verdict-cases (verify_claims_with deps.service_auth raw)) [
        | inr (e, bad) ↦ ground arith
        | inl (claims, verified) ↦ ground arith
      ]
    ]

authenticate-keeps :
    {S : Type 0} (deps : Deps S) (role : String) (answer : Member → S → Response)
    (authorization : Text) (s : S)
    → (authenticate deps (require_role role (λ m. reading (answer m))) authorization s).0 ≡ s
unfolding authenticate require_role
authenticate-keeps deps role answer authorization s =
    elim (Option-cases (bearer_token authorization)) [
      | inl n ↦ ground arith
      | inr (raw, carried) ↦ elim (Verdict-cases (verify_with deps.auth raw)) [
        | inr (e, bad) ↦ ground arith
        | inl (subject, verified) ↦ elim (Option-cases deps.identity) [
          | inl n ↦ ground arith
          | inr (resolve, configured) ↦ elim (Result-cases (resolve subject s)) [
            | inr (e, bad) ↦ ground arith
            | inl (m, resolved) ↦ ground arith
          ]
        ]
      ]
    ]

abbrev pub may_write : Endpoint → Bool
may_write enroll = true
may_write complete_lesson = true
may_write _ = false

pub dispatch_reads-at :
    {S : Type 0} (deps : Deps S) (req : Request) (s : S) (e : Endpoint)
    → req.endpoint ≡ e
    → may_write e ≡ false
    → (dispatch deps req s).0 ≡ s
unfolding dispatch member_route open_route
dispatch_reads-at deps req s health h w = ground arith
dispatch_reads-at deps req s eligibility h w = ground arith
dispatch_reads-at deps req s member_credentials h w = ground (
  arith,
  authenticate_service-keeps deps credentials_scope (handle_member_credentials deps req.param)
      req.authorization s,
)
dispatch_reads-at deps req s courses h w =
    ground (arith, authenticate-keeps deps "learner" (λ m. handle_courses deps) req.authorization s)
dispatch_reads-at deps req s enroll h w = ground arith
dispatch_reads-at deps req s complete_lesson h w = ground arith
dispatch_reads-at deps req s dashboard h w =
    ground (arith, authenticate-keeps deps "learner" (handle_dashboard deps) req.authorization s)
dispatch_reads-at deps req s compliance h w =
    ground
      (arith, authenticate-keeps deps "admin" (λ m. handle_compliance deps) req.authorization s)
dispatch_reads-at deps req s unmatched h w = ground arith
dispatch_reads-at deps req s wrong_method h w = ground arith

may_write_none : (e : Endpoint) → e ≢ enroll → e ≢ complete_lesson → may_write e ≡ false
may_write_none health a b = refl
may_write_none eligibility a b = refl
may_write_none member_credentials a b = refl
may_write_none courses a b = refl
may_write_none enroll a b = absurd (a refl)
may_write_none complete_lesson a b = absurd (b refl)
may_write_none dashboard a b = refl
may_write_none compliance a b = refl
may_write_none unmatched a b = refl
may_write_none wrong_method a b = refl

-- Only an enrollment and a completion can change the state: a request for any other route leaves
-- it as it was.
pub dispatch_reads :
    {S : Type 0} (deps : Deps S) (req : Request) (s : S)
    → req.endpoint ≢ enroll
    → req.endpoint ≢ complete_lesson
    → (dispatch deps req s).0 ≡ s
dispatch_reads deps req s a b =
    dispatch_reads-at deps req s req.endpoint refl (may_write_none req.endpoint a b)

-- A request for a member's credentials is handed to their handler only with a verified token whose
-- claims carry the scope of that contract; any other is answered 401, 403, 500 or 503. Neither
-- changes the state.
pub credentials_guarded :
    {S : Type 0} (deps : Deps S) (req : Request) (s : S)
    → req.endpoint ≡ member_credentials
    → ((raw : Text) × (claims : Claims) × (bearer_token req.authorization ≡ some raw)
        × (verify_claims_with deps.service_auth raw ≡ granted claims)
        × (has_scope claims credentials_scope ≡ true)
        × (dispatch deps req s ≡ (s, handle_member_credentials deps req.param s)))
      ⊎ IsRefusal s (dispatch deps req s)
unfolding dispatch open_route member_route authenticate_service write_json
credentials_guarded deps req s h = elim (Option-cases (bearer_token req.authorization)) [
  | inl n ↦ inr (ground arith)
  | inr (raw, carried) ↦ elim (Verdict-cases (verify_claims_with deps.service_auth raw)) [
    | inr (e, bad) ↦ inr (ground arith)
    | inl (claims, verified) ↦ elim (Bool-cases (has_scope claims credentials_scope)) [
      | inl has ↦ inl (raw, claims, carried, verified, has, ground arith)
      | inr lacks ↦ inr (ground arith)
    ]
  ]
]
