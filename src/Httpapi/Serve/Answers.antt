-- ===== src/Httpapi/Serve/Answers.antt =====
-- What holds of every request that the router serves.
use learning_center_referenc.Prelude.{
  ap, ◌∙◌, ℕ, ◌≤◌, ◌<◌, ◌≡◌, refl, ◌⊎◌, inl, inr, Bool, true, false, Option, none, some, Text,
  arith, Option-cases, Bool-cases, String, ltb,
}
use learning_center_referenc.Httpapi.Message.{Response, Request, write_json}
use learning_center_referenc.Httpapi.Deps.{Deps}
use learning_center_referenc.Httpapi.RateLimit.{Limiter, allow}
use learning_center_referenc.Httpapi.Concurrency.{concurrent_limit, acquire}
use learning_center_referenc.Httpapi.Clients.{limited_client}
use learning_center_referenc.Httpapi.Serve.{
  too_many, Outcome, answered, aborted, Server, Arrival, Below, Headers, written, with_security,
  recovered, recoverer, with_request_id, rate_limited, concurrency_limited, serve,
}
use learning_center_referenc.Httpapi.Serve.Headers.{
  HasHeaders, Keeps, given_headers, set_headers_given, given_headers-HasHeaders,
  too_many-HasHeaders, recovered-HasHeaders,
}

-- Whether the limiter, if there is one, lets the client through.
abbrev pub lets_through : Option Limiter → Arrival → Text → Bool
lets_through none arrival client = true
lets_through (some l) arrival client = (allow l arrival.now client).1

module _ {S : Type 0} (arrival : Arrival) (client : Text) (below : Below S) (hs : Headers) where
  abbrev limited : Server S → Server S × Outcome
  limited sv = rate_limited arrival.now client below hs sv

  rate_limited-passes :
      (sv : Server S)
      → lets_through sv.limiter arrival client ≡ true
      → ((limited sv).0.store ≡ (below hs sv.store).0) × ((limited sv).1 ≡ (below hs sv.store).1)
  unfolding rate_limited
  rate_limited-passes sv h = elim (Option-cases sv.limiter) [
    | inl n ↦ ground arith
    | inr (l, some_limiter) ↦ ground arith
  ]

  rate_limited-refuses :
      (sv : Server S)
      → lets_through sv.limiter arrival client ≡ false
      → ((limited sv).0.store ≡ sv.store)
        × ((limited sv).1 ≡ answered (written (too_many "60" "request rate exceeded") hs))
  unfolding rate_limited
  rate_limited-refuses sv h = elim (Option-cases sv.limiter) [
    | inl n ↦ ground arith
    | inr (l, some_limiter) ↦ ground arith
  ]

module _ {S : Type 0} (limit slots : ℕ) (next : Below (Server S)) (hs : Headers)
    (sv : Server S) where
  concurrency_limited-full :
      ltb slots limit ≡ false
      → concurrency_limited limit slots next hs sv
        ≡ (sv, answered (written (too_many "1" "too many concurrent requests") hs))
  unfolding concurrency_limited acquire
  concurrency_limited-full h = ground arith

  concurrency_limited-free :
      ltb slots limit ≡ true → concurrency_limited limit slots next hs sv ≡ next hs sv
  unfolding concurrency_limited acquire
  concurrency_limited-free h = ground arith

module _ {S : Type 0} (split_host parse_ip : Text → Option Text) (deps : Deps S) (arrival : Arrival)
    (req : Request) (below : Below S) (sv : Server S) where
  abbrev given : Headers
  given = given_headers arrival

  abbrev client : Text
  client = limited_client split_host parse_ip deps.trust_proxy req.remote req.forwarded

  abbrev limit : ℕ
  limit = concurrent_limit deps.max_concurrent_requests

  abbrev limits : Below (Server S)
  limits = concurrency_limited limit arrival.slots (rate_limited arrival.now client below)

  serve_lem :
      serve split_host parse_ip deps arrival req below sv
      ≡ ((limits given sv).0, recovered (limits given sv).1)
  unfolding serve with_request_id recoverer with_security
  serve_lem = rw (set_headers_given arrival) refl

  -- Both limits let the request through, or one of them answers it.
  data Passage : Type 0 where
    passes :
        arrival.slots < limit
        → lets_through sv.limiter arrival client ≡ true
        → (limits given sv).0.store ≡ (below given sv.store).0
        → (limits given sv).1 ≡ (below given sv.store).1
        → Passage
    refuses :
        (limit ≤ arrival.slots) ⊎ (lets_through sv.limiter arrival client ≡ false)
        → (limits given sv).0.store ≡ sv.store
        → (retry message : String)
        → (limits given sv).1 ≡ answered (written (too_many retry message) given)
        → Passage

  passage : Passage
  passage =
      let next = rate_limited arrival.now client below in
      elim (Bool-cases (ltb arrival.slots limit)) [
        | inr full ↦
            let at = concurrency_limited-full limit arrival.slots next given sv full in
            refuses (inl (ground arith)) (ap (λ p. p.0.store) at) _ _ (ap (λ p. p.1) at)
        | inl free ↦
            let at = concurrency_limited-free limit arrival.slots next given sv free in
            elim (Bool-cases (lets_through sv.limiter arrival client)) [
              | inl through ↦
                  let (store, outcome) =
                    rate_limited-passes arrival client below given sv through in
                  passes (ground arith) through (ap (λ p. p.0.store) at ∙ store)
                    (ap (λ p. p.1) at ∙ outcome)
              | inr refused ↦
                  let (store, outcome) =
                    rate_limited-refuses arrival client below given sv refused in
                  refuses (inr refused) (ap (λ p. p.0.store) at ∙ store) _ _
                    (ap (λ p. p.1) at ∙ outcome)
            ]
      ]

  -- A request is handled exactly if a slot is free and the limiter lets its client through; if not,
  -- it is answered 429 and the store stays as it was.
  pub serve_handles :
      let (sv', answer) = serve split_host parse_ip deps arrival req below sv in
      ((arrival.slots < limit)
        × (lets_through sv.limiter arrival client ≡ true)
        × (sv'.store ≡ (below given sv.store).0)
        × (answer ≡ recovered (below given sv.store).1))
      ⊎ (((limit ≤ arrival.slots) ⊎ (lets_through sv.limiter arrival client ≡ false))
          × (sv'.store ≡ sv.store)
          × ((r : Response) × (answer ≡ some r) × (r.status ≡ 429)))
  unfolding recovered written write_json
  serve_handles =
      let state = ap (λ p. p.0.store) serve_lem in
      let sent = ap (λ p. p.1) serve_lem in
      elim passage [
        | passes free through store outcome ↦
            inl (free, through, state ∙ store, sent ∙ ap recovered outcome)
        | refuses why store retry message outcome ↦ inr (
          why,
          state ∙ store,
          (written (too_many retry message) given, sent ∙ ap recovered outcome, refl),
        )
      ]

  -- If the handler leaves the headers alone that the chain has set before it, whether it answers,
  -- breaks off or panics, then every response carries the request's generated id and the security
  -- headers, each with its value, whether it comes from the handler, from a limit or from the
  -- recovery of the panic; and there is a response unless the handler aborts the connection.
  pub serve_headers :
      Keeps given (below given sv.store).1
      → ((r : Response) × ((serve split_host parse_ip deps arrival req below sv).1 ≡ some r)
          × HasHeaders given r.headers)
        ⊎ ((below given sv.store).1 ≡ aborted)
  unfolding recovered
  serve_headers keeps =
      let sent = ap (λ p. p.1) serve_lem in
      elim passage [
        | passes free through store outcome ↦
            elim (recovered-HasHeaders arrival (below given sv.store).1 keeps) [
              | inl (r, is, has) ↦ inl (r, sent ∙ (ap recovered outcome ∙ is), has)
              | inr aborts ↦ inr aborts
            ]
        | refuses why store retry message outcome ↦ inl (
          written (too_many retry message) given,
          sent ∙ ap recovered outcome,
          too_many-HasHeaders arrival retry message given (given_headers-HasHeaders arrival),
        )
      ]
