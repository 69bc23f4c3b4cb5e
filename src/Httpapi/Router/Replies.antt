-- ===== src/Httpapi/Router/Replies.antt =====
-- The headers of what the routes answer: the content type of JSON, and nothing else.
use learning_center_referenc.Prelude.{
  ◌≡◌, refl, inl, inr, some, [], ◌∷◌, arith, Text, String, Option-cases, Bool-cases, ℕ,
}
use learning_center_referenc.Learning.{Member, has_role}
use learning_center_referenc.Authn.{AuthError, unavailable, invalid_credential}
use learning_center_referenc.Store.Result.{
  Result-cases, Err, not_found, forbidden, out_of_order, enrollment_withdrawn, failed,
}
use learning_center_referenc.Httpapi.Message.{Body, Response, write_json, Request}
use learning_center_referenc.Httpapi.Deps.{Deps, verify_with, verify_claims_with}
use learning_center_referenc.Httpapi.Handlers.{
  write_store_error, handle_health, handle_eligibility, handle_member_credentials, handle_courses,
  handle_enroll, handle_complete_lesson, handle_dashboard, handle_compliance,
}
use learning_center_referenc.Httpapi.Router.Guarded.{Verdict-cases}
use learning_center_referenc.Httpapi.Router.{
  bearer_token, credentials_scope, reading, denied_response, service_denied, unresolved, identified,
  require_role, authenticate, authenticate_service, member_route, open_route, dispatch, Handler,
}

abbrev pub IsJson : Response → Type 0
IsJson r = r.headers ≡ ("Content-Type", "application/json") ∷ []

write_json-IsJson : (status : ℕ) (body : Body) → IsJson (write_json status body)
unfolding write_json
write_json-IsJson status body = refl

write_store_error-IsJson : (e : Err) → IsJson (write_store_error e)
unfolding write_store_error write_json
write_store_error-IsJson not_found = refl
write_store_error-IsJson forbidden = refl
write_store_error-IsJson out_of_order = refl
write_store_error-IsJson enrollment_withdrawn = refl
write_store_error-IsJson (failed x) = refl

module _ {S : Type 0} (deps : Deps S) (s : S) where
  health-IsJson : IsJson (handle_health deps s)
  unfolding handle_health write_json
  health-IsJson = elim (Option-cases deps.db) [ inl n ↦ ground arith | inr (p, e) ↦ ground arith ]

  eligibility-IsJson : (id : Text) → IsJson (handle_eligibility deps id s)
  unfolding handle_eligibility write_json
  eligibility-IsJson id = elim (Option-cases deps.eligibility) [
    | inl n ↦ ground arith
    | inr (load, e) ↦ elim (Result-cases (load id s)) [
      | inl (inputs, found) ↦ ground arith
      | inr (x, fails) ↦ ground (arith, write_store_error-IsJson x)
    ]
  ]

  credentials-IsJson : (subject : Text) → IsJson (handle_member_credentials deps subject s)
  unfolding handle_member_credentials write_json
  credentials-IsJson subject = elim (Option-cases deps.credentials) [
    | inl n ↦ ground arith
    | inr (load, e) ↦ elim (Result-cases (load subject s)) [
      | inl (r, found) ↦ ground arith
      | inr (x, fails) ↦ ground (arith, write_store_error-IsJson x)
    ]
  ]

  courses-IsJson : IsJson (handle_courses deps s)
  unfolding handle_courses write_json
  courses-IsJson = elim (Option-cases deps.learning) [
    | inl n ↦ ground arith
    | inr (st, e) ↦ elim (Result-cases (st.list_published_courses s)) [
      | inl (r, found) ↦ ground arith
      | inr (x, fails) ↦ ground (arith, write_store_error-IsJson x)
    ]
  ]

  enroll-IsJson : (m : Member) (course : Text) → IsJson (handle_enroll deps m course s).1
  unfolding handle_enroll write_json
  enroll-IsJson m course = elim (Option-cases deps.learning) [
    | inl n ↦ ground arith
    | inr (st, e) ↦ elim (Result-cases (st.enroll m.id course s).1) [
      | inl (r, found) ↦ ground arith
      | inr (x, fails) ↦ ground (arith, write_store_error-IsJson x)
    ]
  ]

  complete_lesson-IsJson :
      (m : Member) (enrollment lesson : Text)
      → IsJson (handle_complete_lesson deps m enrollment lesson s).1
  unfolding handle_complete_lesson write_json
  complete_lesson-IsJson m enrollment lesson = elim (Option-cases deps.learning) [
    | inl n ↦ ground arith
    | inr (st, e) ↦ elim (Result-cases (st.complete_lesson m.id enrollment lesson s).1) [
      | inl (r, found) ↦ ground arith
      | inr (x, fails) ↦ ground (arith, write_store_error-IsJson x)
    ]
  ]

  dashboard-IsJson : (m : Member) → IsJson (handle_dashboard deps m s)
  unfolding handle_dashboard write_json
  dashboard-IsJson m = elim (Option-cases deps.learning) [
    | inl n ↦ ground arith
    | inr (st, e) ↦ elim (Result-cases (st.load_dashboard m.id s)) [
      | inl (r, found) ↦ ground arith
      | inr (x, fails) ↦ ground (arith, write_store_error-IsJson x)
    ]
  ]

  compliance-IsJson : IsJson (handle_compliance deps s)
  unfolding handle_compliance write_json
  compliance-IsJson = elim (Option-cases deps.learning) [
    | inl n ↦ ground arith
    | inr (st, e) ↦ elim (Result-cases (st.list_compliance s)) [
      | inl (r, found) ↦ ground arith
      | inr (x, fails) ↦ ground (arith, write_store_error-IsJson x)
    ]
  ]

  require_role-IsJson :
      (role : String) (next : Member → Handler S) (m : Member)
      → IsJson (next m s).1
      → IsJson (require_role role next m s).1
  unfolding require_role write_json
  require_role-IsJson role next m h = elim (Bool-cases (has_role m role)) [
    | inl has ↦ ground arith
    | inr lacks ↦ ground arith
  ]

  denied-IsJson : (e : AuthError) → IsJson (denied_response deps e) × IsJson (service_denied deps e)
  unfolding write_json
  denied-IsJson unavailable = (refl, refl)
  denied-IsJson invalid_credential = (refl, refl)

  unresolved-IsJson : (e : Err) → IsJson (unresolved deps e)
  unfolding write_json
  unresolved-IsJson not_found = refl
  unresolved-IsJson forbidden = refl
  unresolved-IsJson out_of_order = refl
  unresolved-IsJson enrollment_withdrawn = refl
  unresolved-IsJson (failed x) = refl

  identified-IsJson :
      (next : Member → Handler S) (subject : Text)
      → ((m : Member) → IsJson (next m s).1)
      → IsJson (identified deps next subject s).1
  unfolding write_json
  identified-IsJson next subject h = elim (Option-cases deps.identity) [
    | inl n ↦ ground arith
    | inr (resolve, e) ↦ elim (Result-cases (resolve subject s)) [
      | inl (m, found) ↦ ground (arith, h m)
      | inr (x, fails) ↦ ground (arith, unresolved-IsJson x)
    ]
  ]

  authenticate-IsJson :
      (next : Member → Handler S) (authorization : Text)
      → ((m : Member) → IsJson (next m s).1)
      → IsJson (authenticate deps next authorization s).1
  unfolding authenticate write_json
  authenticate-IsJson next authorization h = elim (Option-cases (bearer_token authorization)) [
    | inl n ↦ ground arith
    | inr (raw, sent) ↦ elim (Verdict-cases (verify_with deps.auth raw)) [
      | inl (subject, known) ↦ ground (arith, identified-IsJson next subject h)
      | inr (e, refused) ↦ ground (arith, denied-IsJson e)
    ]
  ]

  authenticate_service-IsJson :
      (scope : Text) (next : Handler S) (authorization : Text)
      → IsJson (next s).1
      → IsJson (authenticate_service deps scope next authorization s).1
  unfolding authenticate_service write_json
  authenticate_service-IsJson scope next authorization h =
      elim (Option-cases (bearer_token authorization)) [
        | inl n ↦ ground arith
        | inr (raw, sent) ↦ elim (Verdict-cases (verify_claims_with deps.service_auth raw)) [
          | inl (claims, known) ↦ ground arith
          | inr (e, refused) ↦ ground (arith, denied-IsJson e)
        ]
      ]

  open_route-IsJson : (req : Request) → IsJson (open_route deps req s).1
  unfolding open_route write_json
  open_route-IsJson req =
      let service =
        authenticate_service-IsJson credentials_scope
          (reading (handle_member_credentials deps req.param)) req.authorization
          (credentials-IsJson req.param) in
      ground (arith, health-IsJson, eligibility-IsJson req.param, service)

  member_route-IsJson :
      (req : Request) (role : String) (handler : Member → Handler S) (m : Member)
      → member_route deps req ≡ some (role, handler)
      → IsJson (handler m s).1
  unfolding member_route
  member_route-IsJson req role handler m h = ground (
    arith,
    courses-IsJson,
    enroll-IsJson m req.param,
    complete_lesson-IsJson m req.param req.lesson_param,
    dashboard-IsJson m,
    compliance-IsJson,
  )

  pub dispatch-IsJson : (req : Request) → IsJson (dispatch deps req s).1
  unfolding dispatch
  dispatch-IsJson req = elim (Option-cases (member_route deps req)) [
    | inl n ↦ ground (arith, open_route-IsJson req)
    | inr ((role, handler), routed) ↦
        let next = require_role role handler in
        ground (
          arith,
          authenticate-IsJson next req.authorization (λ m.
              require_role-IsJson role handler m (member_route-IsJson req role handler m routed)),
        )
  ]
