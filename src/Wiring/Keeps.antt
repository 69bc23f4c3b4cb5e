-- ===== src/Wiring/Keeps.antt =====
-- What holds of the tables behind the router, whatever requests arrive.
use learning_center_referenc.Prelude.{
  ℕ, ◌≡◌, refl, inl, inr, String, Bool, Option, some, List, [], ◌∷◌, Text, Option-cases, Bool-cases,
  not, ◌||◌,
}
use learning_center_referenc.Learning.{Uuid, Member}
use learning_center_referenc.Authn.{Verdict, Claims}
use learning_center_referenc.Store.Result.{Env}
use learning_center_referenc.Store.Schema.{Db}
use learning_center_referenc.Store.Invariant.{Inv}
use learning_center_referenc.Machine.{enroll-Inv, complete_lesson-Inv}
use learning_center_referenc.Httpapi.Message.{Endpoint, Request, is_uuid}
use learning_center_referenc.Httpapi.Deps.{Deps}
use learning_center_referenc.Httpapi.Handlers.{handle_enroll, handle_complete_lesson}
use learning_center_referenc.Httpapi.Router.{Handler, member_route, dispatch}
use learning_center_referenc.Httpapi.Router.Guarded.{dispatch_guarded, dispatch_reads-at}
use learning_center_referenc.Wiring.{learning_store, wired}

-- A server's process: its environment changes from request to request.
pub record Setting : Type 0 where
  pub cast : Text → Option Uuid
  pub verify : Text → Verdict Claims
  pub pings : Bool
  pub rate_limit : ℕ
  pub trust_proxy : Bool
  pub max_concurrent : ℕ

abbrev pub deps_of : Setting → Env → Deps Db
deps_of st env = wired st.cast env st.verify st.pings st.rate_limit st.trust_proxy st.max_concurrent

handle_enroll-Inv :
    (st : Setting) (env : Env) (m : Member) (course : Text) (db : Db)
    → Inv db
    → Inv (handle_enroll (deps_of st env) m course db).0
unfolding handle_enroll wired learning_store
handle_enroll-Inv st env m course db v = elim (Bool-cases (is_uuid course)) [
  | inr bad ↦ rw bad v
  | inl good ↦ elim (Option-cases (st.cast course)) [
    | inl n ↦ rw (good, n) v
    | inr (c, some_course) ↦ rw (good, some_course) (enroll-Inv env m.id c db v)
  ]
]

handle_complete_lesson-Inv :
    (st : Setting) (env : Env) (m : Member) (enrollment lesson : Text) (db : Db)
    → Inv db
    → Inv (handle_complete_lesson (deps_of st env) m enrollment lesson db).0
unfolding handle_complete_lesson wired learning_store
handle_complete_lesson-Inv st env m enrollment lesson db v =
    elim (Bool-cases (not (is_uuid enrollment) || not (is_uuid lesson))) [
      | inl bad ↦ rw bad v
      | inr good ↦ elim (Option-cases (st.cast enrollment)) [
        | inl n ↦ rw (good, n) v
        | inr (k, some_enrollment) ↦ elim (Option-cases (st.cast lesson)) [
          | inl n ↦ rw (good, some_enrollment, n) v
          | inr (l, some_lesson) ↦
              rw (good, some_enrollment, some_lesson) (complete_lesson-Inv env m.id k l db v)
        ]
      ]
    ]

guarded-Inv :
    (st : Setting) (env : Env) (req : Request) (role : String) (handler : Member → Handler Db)
    (db : Db)
    → member_route (deps_of st env) req ≡ some (role, handler)
    → ((m : Member) → Inv (handler m db).0)
    → Inv db
    → Inv (dispatch (deps_of st env) req db).0
guarded-Inv st env req role handler db r keeps v =
    elim (dispatch_guarded (deps_of st env) req role handler db r) [
      | inl (m, authorized, answer) ↦ rw answer (keeps m)
      | inr (same, status) ↦ rw same v
    ]

enroll_route :
    (st : Setting) (env : Env) (req : Request)
    → req.endpoint ≡ Endpoint.enroll
    → member_route (deps_of st env) req
      ≡ some ("learner", λ m. handle_enroll (deps_of st env) m req.param)
unfolding member_route
enroll_route st env req h = rw h

complete_route :
    (st : Setting) (env : Env) (req : Request)
    → req.endpoint ≡ Endpoint.complete_lesson
    → member_route (deps_of st env) req
      ≡ some ("learner", λ m. handle_complete_lesson (deps_of st env) m req.param req.lesson_param)
unfolding member_route
complete_route st env req h = rw h

dispatch-Inv-at :
    (st : Setting) (env : Env) (req : Request) (db : Db) (e : Endpoint)
    → req.endpoint ≡ e
    → Inv db
    → Inv (dispatch (deps_of st env) req db).0
dispatch-Inv-at st env req db Endpoint.enroll h v =
    guarded-Inv st env req "learner" (λ m. handle_enroll (deps_of st env) m req.param) db
      (enroll_route st env req h) (λ m. handle_enroll-Inv st env m req.param db v) v
dispatch-Inv-at st env req db Endpoint.complete_lesson h v =
    guarded-Inv st env req "learner"
      (λ m. handle_complete_lesson (deps_of st env) m req.param req.lesson_param) db
      (complete_route st env req h)
      (λ m. handle_complete_lesson-Inv st env m req.param req.lesson_param db v) v
dispatch-Inv-at st env req db e h v = rw (dispatch_reads-at (deps_of st env) req db e h refl) v

-- Requests that the router serves one after the other, each in the environment it meets.
unfoldable pub serve_all : Setting → List (Env × Request) → Db → Db
serve_all st [] db = db
serve_all st ((env, req) ∷ rest) db = serve_all st rest (dispatch (deps_of st env) req db).0

-- From tables that are well formed, with the projection in step with the events and the completed
-- lessons in order, whatever requests arrive, with whatever tokens, and whatever the database
-- fails, lead to such tables.
pub serve_all-Inv :
    (st : Setting) (requests : List (Env × Request)) (db : Db)
    → Inv db
    → Inv (serve_all st requests db)
unfolding serve_all
serve_all-Inv st [] db v = v
serve_all-Inv st ((env, req) ∷ rest) db v =
    serve_all-Inv st rest (dispatch (deps_of st env) req db).0
      (dispatch-Inv-at st env req db req.endpoint refl v)
