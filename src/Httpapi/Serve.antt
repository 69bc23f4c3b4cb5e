-- ===== src/Httpapi/Serve.antt =====
-- api/internal/httpapi/router.go: the middleware around the routes, in the order of NewRouter, and
-- the recovery of a handler that panics.
pub mod Headers
pub mod Answers
use learning_center_referenc.Prelude.{
  ℕ, String, Bool, true, false, Option, none, some, List, [], ◌∷◌, ◌++◌, Text, str_eq,
  if◌then◌else◌,
}
use learning_center_referenc.Clock.{Instant}
use learning_center_referenc.Httpapi.Message.{error, Response, write_json, Request}
use learning_center_referenc.Httpapi.Deps.{Deps}
use learning_center_referenc.Httpapi.RateLimit.{Limiter, allow, new_limiter}
use learning_center_referenc.Httpapi.Concurrency.{concurrent_limit, acquire}
use learning_center_referenc.Httpapi.Clients.{limited_client}
use learning_center_referenc.Httpapi.Router.{Handler, dispatch}

-- The header map of a response: a value for each name that was set.
abbrev pub Headers : Type 0
Headers = List (String × String)

-- Header.Get
unfoldable pub header_value : String → Headers → Option String
header_value name [] = none
header_value name ((k, v) ∷ hs) =
    let rest = header_value name hs in if str_eq k name then some v else rest

-- Header.Set
unfoldable pub set_header : String → String → Headers → Headers
set_header name value [] = (name, value) ∷ []
set_header name value ((k, v) ∷ hs) =
    let rest = set_header name value hs in
    if str_eq k name then (name, value) ∷ hs else (k, v) ∷ rest

-- The calls of Header.Set in turn.
unfoldable pub set_headers : Headers → Headers → Headers
set_headers [] hs = hs
set_headers ((name, value) ∷ more) hs = set_headers more (set_header name value hs)

-- A response that is written over the headers set before it.
unfoldable pub written : Response → Headers → Response
written r hs = record r { headers = set_headers r.headers hs }

-- What became of a request below a middleware: an answer, with the headers that are sent, or a
-- panic, before the response was started (with the headers set by then, since all share one map) or
-- after it (with what had been sent). The panic `http.ErrAbortHandler` is on its own.
pub data Outcome : Type 0 where
  answered broke_off : Response → Outcome
  panicked : Headers → Outcome
  aborted : Outcome

-- A handler on the headers set before it, and on a state.
abbrev pub Below : Type 0 → Type 0
Below S = Headers → S → S × Outcome

-- securityHeaders
abbrev pub security_headers : Headers
security_headers =
    ("X-Content-Type-Options", "nosniff")
    ∷ ("X-Frame-Options", "DENY")
    ∷ ("Referrer-Policy", "no-referrer")
    ∷ ("Permissions-Policy", "camera=(), microphone=(), geolocation=()")
    ∷ ("Content-Security-Policy", "default-src 'none'; frame-ancestors 'none'")
    ∷ ("Cache-Control", "no-store")
    ∷ []

unfoldable pub with_security : {S : Type 0} → Below S → Below S
with_security next hs s = next (set_headers security_headers hs) s

-- What the deferred function of recoverer does: `none` is the panic that passes on to net/http,
-- which closes the connection.
unfoldable pub recovered : Outcome → Option Response
recovered (answered r) = some r
recovered (broke_off r) = some r
recovered (panicked hs) = some (written (write_json 500 (error "internal error")) hs)
recovered aborted = none

unfoldable pub recoverer : {S : Type 0} → Below S → Headers → S → S × Option Response
recoverer next hs s = let (s', outcome) = next hs s in (s', recovered outcome)

-- What requestLogger does to the response: it sets the request's id.
unfoldable pub with_request_id :
    {S : Type 0} → String → (Headers → S → S × Option Response) → Headers → S → S × Option Response
with_request_id request_id next hs s = next (set_header "X-Request-Id" request_id hs) s

-- The router's own state, and the state behind its dependencies.
pub record Server (S : Type 0) : Type 0 where
  pub store : S
  -- `none` if the limit per minute is 0.
  pub limiter : Option Limiter

-- What surrounds a request: the id that chi generates, the slots that other requests hold when it
-- arrives, and the time.
pub record Arrival : Type 0 where
  pub request_id : String
  pub slots : ℕ
  pub now : Instant

abbrev pub too_many : String → String → Response
too_many retry message =
    let r = write_json 429 (error message) in
    record r { headers = ("Retry-After", retry) ∷ r.headers }

-- time.Minute, in nanoseconds.
abbrev pub minute : ℕ
minute = 60000000000

-- The limiter of NewRouter.
unfoldable pub router_limiter : ℕ → Bool → Option Limiter
router_limiter ℕ.zero trust_proxy = none
router_limiter (ℕ.suc n) trust_proxy = some (new_limiter (ℕ.suc n) minute trust_proxy)

-- What the server of NewRouter starts with: a limiter that has seen no client.
unfoldable pub new_server : {S : Type 0} → Deps S → S → Server S
new_server deps s = record {
  store = s;
  limiter = router_limiter deps.rate_limit_per_minute deps.trust_proxy;
}

abbrev through : {S : Type 0} → Below S → Below (Server S)
through next hs sv = let (s, o) = next hs sv.store in (record sv { store = s }, o)

-- clientRateLimiter.middleware
unfoldable pub rate_limited : {S : Type 0} → Instant → Text → Below S → Below (Server S)
rate_limited now client next hs sv = elim sv.limiter [
  | none ↦ through next hs sv
  | some l ↦
      let (l', granted) = allow l now client in
      let sv' = record sv { limiter = some l' } in
      if granted
      then through next hs sv'
      else (sv', answered (written (too_many "60" "request rate exceeded") hs))
]

-- concurrencyLimit
unfoldable pub concurrency_limited : {S : Type 0} → ℕ → ℕ → Below (Server S) → Below (Server S)
concurrency_limited limit slots next hs sv = elim (acquire limit slots) [
  | none ↦ (sv, answered (written (too_many "1" "too many concurrent requests") hs))
  | some _ ↦ next hs sv
]

-- A request through the chain of NewRouter, down to the handler `below`. The functions of package
-- net are parameters.
module _ (split_host parse_ip : Text → Option Text) where
  unfoldable pub serve :
      {S : Type 0} → Deps S → Arrival → Request → Below S → Server S → Server S × Option Response
  serve deps arrival req below =
      let client = limited_client split_host parse_ip deps.trust_proxy req.remote req.forwarded in
      let limits =
        concurrency_limited (concurrent_limit deps.max_concurrent_requests) arrival.slots
          (rate_limited arrival.now client below) in
      with_request_id arrival.request_id (recoverer (with_security limits)) []

-- The handler of the routes, none of whose handlers panics.
abbrev pub routes : {S : Type 0} → Deps S → Request → Below S
routes deps req hs s = let (s', r) = dispatch deps req s in (s', answered (written r hs))
