-- ===== src/Httpapi/Serve/Headers.antt =====
-- The header map along the chain: what a later Header.Set keeps, and what the refusals and the
-- recovery of a panic send.
use learning_center_referenc.Prelude.{
  ◌≡◌, refl, inl, inr, false, some, [], ◌∷◌, arith, All, str_eq, String, eq_iff, ℕ, ◌⊎◌,
}
use learning_center_referenc.Httpapi.Message.{Request, Body, Response, write_json, error}
use learning_center_referenc.Httpapi.Router.Replies.{dispatch-IsJson}
use learning_center_referenc.Httpapi.Deps.{Deps}
use learning_center_referenc.Httpapi.Serve.{
  routes, Headers, header_value, set_header, set_headers, written, Outcome, answered, broke_off,
  panicked, aborted, security_headers, recovered, Arrival, too_many,
}

-- Each of these headers has its value in the map.
abbrev pub HasHeaders : Headers → Headers → Type 0
HasHeaders given hs = All (λ h. header_value h.0 hs ≡ some h.1) given

-- An outcome that left these headers as they are; an aborted connection sends none.
abbrev pub Keeps : Headers → Outcome → Type 0
Keeps given (answered r) = HasHeaders given r.headers
Keeps given (broke_off r) = HasHeaders given r.headers
Keeps given (panicked hs) = HasHeaders given hs
Keeps given aborted = Unit

abbrev Others : String → Headers → Type 0
Others name given = All (λ h. str_eq name h.0 ≡ false) given

header_value-set_header :
    (name value other : String) (hs : Headers)
    → str_eq name other ≡ false
    → header_value other (set_header name value hs) ≡ header_value other hs
unfolding header_value set_header
header_value-set_header name value other [] apart = ground (arith, eq_iff name other)
header_value-set_header name value other ((k, v) ∷ hs) apart = ground (
  arith,
  header_value-set_header name value other hs apart,
  eq_iff k name,
  eq_iff name other,
  eq_iff k other,
)

HasHeaders-set_header :
    (name value : String) (given hs : Headers)
    → Others name given
    → HasHeaders given hs
    → HasHeaders given (set_header name value hs)
HasHeaders-set_header name value [] hs apart has = tt
HasHeaders-set_header name value ((k, v) ∷ given) hs apart has = (
  ground (arith, header_value-set_header name value k hs apart.0, has.0),
  HasHeaders-set_header name value given hs apart.1 has.1,
)

-- What a handler is to find set: the request's id and the security headers.
abbrev pub given_headers : Arrival → Headers
given_headers arrival =
    ("X-Request-Id", arrival.request_id)
    ∷ ("X-Content-Type-Options", "nosniff")
    ∷ ("X-Frame-Options", "DENY")
    ∷ ("Referrer-Policy", "no-referrer")
    ∷ ("Permissions-Policy", "camera=(), microphone=(), geolocation=()")
    ∷ ("Content-Security-Policy", "default-src 'none'; frame-ancestors 'none'")
    ∷ ("Cache-Control", "no-store")
    ∷ []

pub set_headers_given :
    (arrival : Arrival)
    → set_headers security_headers (set_header "X-Request-Id" arrival.request_id [])
      ≡ given_headers arrival
unfolding set_headers set_header
set_headers_given arrival = refl

pub given_headers-HasHeaders :
    (arrival : Arrival) → HasHeaders (given_headers arrival) (given_headers arrival)
unfolding header_value
given_headers-HasHeaders arrival = (refl, (refl, (refl, (refl, (refl, (refl, (refl, tt)))))))

given_headers-Others_type : (arrival : Arrival) → Others "Content-Type" (given_headers arrival)
given_headers-Others_type arrival = (refl, (refl, (refl, (refl, (refl, (refl, (refl, tt)))))))

given_headers-Others_retry : (arrival : Arrival) → Others "Retry-After" (given_headers arrival)
given_headers-Others_retry arrival = (refl, (refl, (refl, (refl, (refl, (refl, (refl, tt)))))))

pub written-HasHeaders :
    (arrival : Arrival) (status : ℕ) (body : Body) (hs : Headers)
    → HasHeaders (given_headers arrival) hs
    → HasHeaders (given_headers arrival) (written (write_json status body) hs).headers
unfolding written write_json set_headers
written-HasHeaders arrival status body hs has =
    HasHeaders-set_header "Content-Type" _ (given_headers arrival) hs
      (given_headers-Others_type arrival) has

pub too_many-HasHeaders :
    (arrival : Arrival) (retry message : String) (hs : Headers)
    → HasHeaders (given_headers arrival) hs
    → HasHeaders (given_headers arrival) (written (too_many retry message) hs).headers
unfolding written write_json set_headers
too_many-HasHeaders arrival retry message hs has =
    HasHeaders-set_header "Content-Type" _ (given_headers arrival) _
      (given_headers-Others_type arrival)
      (HasHeaders-set_header "Retry-After" retry (given_headers arrival) hs
        (given_headers-Others_retry arrival) has)

-- What is sent of an outcome that kept the headers.
pub recovered-HasHeaders :
    (arrival : Arrival) (outcome : Outcome)
    → Keeps (given_headers arrival) outcome
    → ((r : Response) × (recovered outcome ≡ some r) × HasHeaders (given_headers arrival) r.headers)
      ⊎ (outcome ≡ aborted)
unfolding recovered
recovered-HasHeaders arrival (answered r) has = inl (r, refl, has)
recovered-HasHeaders arrival (broke_off r) has = inl (r, refl, has)
recovered-HasHeaders arrival (panicked hs) has =
    inl (_, refl, written-HasHeaders arrival 500 (error "internal error") hs has)
recovered-HasHeaders arrival aborted has = inr refl

-- The handlers of the routes leave those headers as they are.
pub routes-Keeps :
    {S : Type 0} (deps : Deps S) (req : Request) (arrival : Arrival) (hs : Headers) (s : S)
    → HasHeaders (given_headers arrival) hs
    → Keeps (given_headers arrival) (routes deps req hs s).1
unfolding written set_headers
routes-Keeps deps req arrival hs s has = rw (dispatch-IsJson deps s req) (
    HasHeaders-set_header "Content-Type" _ (given_headers arrival) hs
      (given_headers-Others_type arrival) has)
