-- ===== src/Tests/Http.antt =====
-- Requests to the router, and calls of the limits, on the small course.
use learning_center_referenc.Prelude.{
  ◌*◌, ◌+◌, ◌≤◌, ◌<◌, ◌≡◌, refl, ◌≢◌, ◌↔◌, ◌⊎◌, true, false, Option, none, some, List, [], ◌∷◌,
  ◌++◌, Text, codes, length, mem, text_eq, trim_space, trim_left, is_space, arith, if◌then◌else◌,
}
use learning_center_referenc.Clock.{Instant}
use learning_center_referenc.Learning.{Member}
use learning_center_referenc.Authn.{Claims, granted, has_scope}
use learning_center_referenc.Store.Schema.{Db}
use learning_center_referenc.Store.Invariant.{Inv}
use learning_center_referenc.Httpapi.Message.{write_json, Body, Response, Request, Endpoint}
use learning_center_referenc.Httpapi.Deps.{Deps, verify_claims_with}
use learning_center_referenc.Httpapi.Handlers.{handle_enroll, handle_member_credentials}
use learning_center_referenc.Httpapi.RateLimit.{
  RateWindow, Limiter, new_limiter, visit, put, sweep, swept, admit, allow,
}
use learning_center_referenc.Httpapi.RateLimit.Budget.{
  IsLimiter, run, limit_holds, allow-refuses_iff,
}
use learning_center_referenc.Httpapi.Concurrency.{
  Event, arrive, ends, new_slots, acquire, release, without, slot_step, slots_run, handled_run,
  slots_run_refines, concurrent_limit,
}
use learning_center_referenc.Httpapi.Clients.{limited_client, limited_client-append}
use learning_center_referenc.Httpapi.Router.{
  bearer_token, credentials_scope, member_route, dispatch,
}
use learning_center_referenc.Httpapi.Router.Guarded.{
  IsAuthorized, IsRefusal, dispatch_guarded, dispatch_reads, credentials_guarded,
}
use learning_center_referenc.Httpapi.Serve.{
  aborted, panicked, recovered, written, set_header, set_headers, Server, Arrival, routes, serve,
}
use learning_center_referenc.Httpapi.Serve.Headers.{
  HasHeaders, given_headers, given_headers-HasHeaders, routes-Keeps,
}
use learning_center_referenc.Httpapi.Serve.Answers.{lets_through, serve_handles, serve_headers}
use learning_center_referenc.Wiring.{wired}
use learning_center_referenc.Wiring.Keeps.{Setting, deps_of, serve_all, serve_all-Inv}
use learning_center_referenc.Tests.Fixtures.{env, fresh_db, half_db, half_db-Inv}

-- Every token is the learner's, and ids cast to the small course.
abbrev setting : Setting
setting = record {
  cast = λ id. some 10;
  verify =
      λ raw. granted (record { subject = codes "demo|learner"; scopes = credentials_scope ∷ [] });
  pings = true;
  rate_limit = 2;
  trust_proxy = true;
  max_concurrent = 1;
}

abbrev deps : Deps Db
deps = deps_of setting env

abbrev enroll_request : Request
enroll_request = record {
  endpoint = Endpoint.enroll;
  param = codes "00000000-0000-0000-0000-000000000010";
  lesson_param = [];
  authorization = codes "Bearer t";
  remote = codes "10.0.0.1:80";
  forwarded = codes "6.6.6.6, 1.2.3.4";
}

abbrev credentials_request : Request
credentials_request = record enroll_request {
  endpoint = Endpoint.member_credentials;
  param = codes "demo|learner";
}

serve_all-Inv_example : Inv (serve_all setting ((env, enroll_request) ∷ []) half_db)
serve_all-Inv_example = serve_all-Inv setting ((env, enroll_request) ∷ []) half_db half_db-Inv

enroll_routed :
    member_route deps enroll_request
    ≡ some ("learner", λ m. handle_enroll deps m enroll_request.param)
unfolding member_route
enroll_routed = refl

dispatch_guarded_example :
    ((m : Member) × IsAuthorized deps enroll_request fresh_db "learner" m
      × (dispatch deps enroll_request fresh_db
          ≡ handle_enroll deps m enroll_request.param fresh_db))
    ⊎ IsRefusal fresh_db (dispatch deps enroll_request fresh_db)
dispatch_guarded_example =
    dispatch_guarded deps enroll_request "learner" (λ m. handle_enroll deps m enroll_request.param)
      fresh_db enroll_routed

not_enroll : Endpoint.member_credentials ≢ Endpoint.enroll
not_enroll = ground arith

not_complete : Endpoint.member_credentials ≢ Endpoint.complete_lesson
not_complete = ground arith

credentials_read : (dispatch deps credentials_request fresh_db).0 ≡ fresh_db
credentials_read = dispatch_reads deps credentials_request fresh_db not_enroll not_complete

credentials_guarded_example :
    ((raw : Text) × (claims : Claims) × (bearer_token credentials_request.authorization ≡ some raw)
      × (verify_claims_with deps.service_auth raw ≡ granted claims)
      × (has_scope claims credentials_scope ≡ true)
      × (dispatch deps credentials_request fresh_db
          ≡ (fresh_db, handle_member_credentials deps credentials_request.param fresh_db)))
    ⊎ IsRefusal fresh_db (dispatch deps credentials_request fresh_db)
credentials_guarded_example = credentials_guarded deps credentials_request fresh_db refl

abbrev client : Text
client = codes "1.2.3.4"

abbrev limiter : Limiter
limiter = new_limiter 2 60 true

limiter-IsLimiter : IsLimiter limiter
unfolding new_limiter
limiter-IsLimiter = record { is_map = tt; positive = ground arith }

abbrev calls : List (Instant × Text)
calls = (10, client) ∷ (11, client) ∷ (12, client) ∷ []

-- The third call within the window is refused.
limited : (run client 10 limiter calls).1 ≡ 2
unfolding run allow swept admit sweep visit put new_limiter text_eq
limited = refl

limit_holds_example :
    ((run client 10 limiter calls).1 ≤ 2 * limiter.limit)
    × (visit client limiter.visitors ≡ none → (run client 10 limiter calls).1 ≤ limiter.limit)
unfolding new_limiter
limit_holds_example = limit_holds client 10 limiter calls limiter-IsLimiter (ground arith)

first_refusal : ((allow limiter 10 client).1 ≡ false) ↔ (
    (e : RateWindow) × (visit client limiter.visitors ≡ some e)
    × (10 < e.started + limiter.window)
    × (limiter.limit ≤ e.hits))
first_refusal = allow-refuses_iff limiter 10 client limiter-IsLimiter

-- Of two slots the second is refused to request 3, and taken again after request 1 has ended.
abbrev events : List Event
events = arrive 1 ∷ arrive 2 ∷ arrive 3 ∷ ends 1 ∷ ends 3 ∷ arrive 4 ∷ []

slots_answer : slots_run 2 new_slots events ≡ (
  record { taken = 2; handled = 4 ∷ 2 ∷ [] },
  some true ∷ some true ∷ some false ∷ none ∷ none ∷ some true ∷ [],
)
unfolding slots_run slot_step acquire release without mem
slots_answer = refl

slots_run_refines_example :
    let (s, answers) = slots_run 2 new_slots events in
    let (ids, expected) = handled_run 2 [] events in
    (answers ≡ expected) × (s.handled ≡ ids) × (s.taken ≡ length ids) × (length ids ≤ 2)
slots_run_refines_example = slots_run_refines 2 events

abbrev split_host : Text → Option Text
split_host address = none

abbrev parse_ip : Text → Option Text
parse_ip s = if text_eq s client then some s else none

spaced : parse_ip (trim_space (codes " 1.2.3.4")) ≡ some client
unfolding trim_space text_eq trim_left is_space
spaced = refl

limited_client-append_example :
    limited_client split_host parse_ip true
      (codes "10.0.0.1:80")
      (codes "6.6.6.6" ++ b',' ∷ codes " 1.2.3.4")
    ≡ client
limited_client-append_example =
    limited_client-append split_host parse_ip (codes "10.0.0.1:80") (codes "6.6.6.6")
      (codes " 1.2.3.4") client refl spaced

abbrev arrival : Arrival
arrival = record { request_id = "host/1"; slots = 0; now = 10 }

abbrev server : Server Db
server = record { store = fresh_db; limiter = some limiter }

-- A handler that panics before it answers.
panic_recovered :
    recovered (panicked (given_headers arrival))
    ≡ some (record {
      status = 500;
      headers = given_headers arrival ++ ("Content-Type", "application/json") ∷ [];
      body = Body.error "internal error";
    })
unfolding recovered written write_json set_headers set_header
panic_recovered = refl

serve_headers_example :
    ((r : Response) × ((serve split_host parse_ip deps arrival enroll_request
          (routes deps enroll_request)
          server).1
        ≡ some r)
      × HasHeaders (given_headers arrival) r.headers)
    ⊎ ((routes deps enroll_request (given_headers arrival) fresh_db).1 ≡ aborted)
serve_headers_example =
    serve_headers split_host parse_ip deps arrival enroll_request (routes deps enroll_request)
      server
      (routes-Keeps deps enroll_request arrival (given_headers arrival) fresh_db
        (given_headers-HasHeaders arrival))

serve_handles_example :
    let address =
      limited_client split_host parse_ip true enroll_request.remote enroll_request.forwarded in
    let handled = routes deps enroll_request (given_headers arrival) fresh_db in
    let (sv', answer) =
      serve split_host parse_ip deps arrival enroll_request (routes deps enroll_request) server in
    ((0 < concurrent_limit 1)
      × (lets_through server.limiter arrival address ≡ true)
      × (sv'.store ≡ handled.0)
      × (answer ≡ recovered handled.1))
    ⊎ (((concurrent_limit 1 ≤ 0) ⊎ (lets_through server.limiter arrival address ≡ false))
        × (sv'.store ≡ fresh_db)
        × ((r : Response) × (answer ≡ some r) × (r.status ≡ 429)))
unfolding wired
serve_handles_example =
    serve_handles split_host parse_ip deps arrival enroll_request (routes deps enroll_request)
      server
