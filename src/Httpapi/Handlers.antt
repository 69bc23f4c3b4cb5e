-- ===== src/Httpapi/Handlers.antt =====
-- The handlers of router.go. One that can write returns the new state with its response.
use learning_center_referenc.Prelude.{
  Bool, not, ◌||◌, none, some, Text, ltb, is_blank, byte_length, if◌then◌else◌,
}
use learning_center_referenc.Learning.{Member, EnrollmentProgress}
use learning_center_referenc.Safeguarding.{evaluate}
use learning_center_referenc.Credentials.{build}
use learning_center_referenc.Store.Result.{
  Err, not_found, forbidden, out_of_order, enrollment_withdrawn, failed, Result, ok, err,
}
use learning_center_referenc.Httpapi.Message.{Body, error, Response, write_json, is_uuid}
use learning_center_referenc.Httpapi.Deps.{Deps}

-- What the client is told of an error of the store.
unfoldable pub write_store_error : Err → Response
write_store_error not_found = write_json 404 (error "not found")
write_store_error forbidden = write_json 403 (error "forbidden")
write_store_error out_of_order = write_json 409 (error "complete earlier lessons first")
write_store_error enrollment_withdrawn = write_json 409 (error "enrollment is withdrawn")
write_store_error (failed _) = write_json 500 (error "internal error")

module _ {S : Type 0} (deps : Deps S) where
  unfoldable pub handle_health : S → Response
  handle_health s = elim deps.db [
    | none ↦ write_json 200 (Body.health "ok" "not configured")
    | some ping ↦
        if ping s
        then write_json 200 (Body.health "ok" "ok")
        else write_json 503 (Body.health "degraded" "unreachable")
  ]

  unfoldable pub handle_eligibility : Text → S → Response
  handle_eligibility id s =
      if not (is_uuid id)
      then write_json 400 (error "invalid member id")
      else elim deps.eligibility [
        | none ↦ write_json 503 (error "eligibility store unavailable")
        | some load ↦ elim (load id s) [
          | err e ↦ write_store_error e
          | ok inputs ↦
              let d = evaluate inputs in write_json 200 (Body.eligibility id d.status d.reason)
        ]
      ]

  abbrev credentials_error : Err → Response
  credentials_error not_found = write_json 404 (error "member not found")
  credentials_error e = write_store_error e

  unfoldable pub handle_member_credentials : Text → S → Response
  handle_member_credentials subject s =
      if is_blank subject || ltb 255 (byte_length subject)
      then write_json 400 (error "invalid subject")
      else elim deps.credentials [
        | none ↦ write_json 503 (error "credentials store unavailable")
        | some load ↦ elim (load subject s) [
          | err e ↦ credentials_error e
          | ok r ↦ write_json 200 (Body.credentials (build r))
        ]
      ]

  abbrev no_store : Response
  no_store = write_json 503 (error "learning store unavailable")

  unfoldable pub handle_courses : S → Response
  handle_courses s = elim deps.learning [
    | none ↦ no_store
    | some st ↦ elim (st.list_published_courses s) [
      | err e ↦ write_store_error e
      | ok cs ↦ write_json 200 (Body.courses cs)
    ]
  ]

  -- 201 for a new enrollment, 200 for one that was there.
  abbrev enroll_response : Result (EnrollmentProgress × Bool) → Response
  enroll_response (err e) = write_store_error e
  enroll_response (ok (p, created)) =
      write_json (if created then 201 else 200) (Body.enrolled created p)

  unfoldable pub handle_enroll : Member → Text → S → S × Response
  handle_enroll m course s = elim deps.learning [
    | none ↦ (s, no_store)
    | some st ↦
        if not (is_uuid course)
        then (s, write_json 400 (error "invalid course id"))
        else let (s', r) = st.enroll m.id course s in (s', enroll_response r)
  ]

  abbrev complete_response : Result (EnrollmentProgress × Bool) → Response
  complete_response (err e) = write_store_error e
  complete_response (ok (p, recorded)) = write_json 200 (Body.recorded recorded p)

  unfoldable pub handle_complete_lesson : Member → Text → Text → S → S × Response
  handle_complete_lesson m enrollment lesson s = elim deps.learning [
    | none ↦ (s, no_store)
    | some st ↦
        if not (is_uuid enrollment) || not (is_uuid lesson)
        then (s, write_json 400 (error "invalid enrollment or lesson id"))
        else let (s', r) = st.complete_lesson m.id enrollment lesson s in (s', complete_response r)
  ]

  unfoldable pub handle_dashboard : Member → S → Response
  handle_dashboard m s = elim deps.learning [
    | none ↦ no_store
    | some st ↦ elim (st.load_dashboard m.id s) [
      | err e ↦ write_store_error e
      | ok d ↦ write_json 200 (Body.dashboard d)
    ]
  ]

  unfoldable pub handle_compliance : S → Response
  handle_compliance s = elim deps.learning [
    | none ↦ no_store
    | some st ↦ elim (st.list_compliance s) [
      | err e ↦ write_store_error e
      | ok ms ↦ write_json 200 (Body.compliance ms)
    ]
  ]
