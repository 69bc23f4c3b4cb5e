-- ===== src/Httpapi/Clients.antt =====
-- api/internal/httpapi/rate_limit.go: the address that names a client. The functions of package
-- net are parameters: `split_host` gives the host of a "host:port", `parse_ip` the canonical text of
-- an address that parses.
use learning_center_referenc.Prelude.{
  ℕ, ◌≡◌, refl, ◌≢◌, Bool, true, false, Option, none, some, List, [], ◌∷◌, ◌++◌, arith, ◌==◌,
  if◌then◌else◌, Text, trim_space, ap,
}
use mathlib.Core.List.{reverse, reverse-append}

abbrev extend : ℕ → List Text → List Text
extend c [] = (c ∷ []) ∷ []
extend c (w ∷ ws) = (c ∷ w) ∷ ws

-- strings.Split(s, ",")
unfoldable pub split_comma : Text → List Text
split_comma [] = [] ∷ []
split_comma (c ∷ s) = let rest = split_comma s in if c == b',' then [] ∷ rest else extend c rest

module _ (split_host : Text → Option Text) (parse_ip : Text → Option Text) where
  unfoldable pub client_address : Text → Text
  client_address remote = elim (split_host remote) [ none ↦ remote | some host ↦ host ]

  -- The loop from the last entry down, over the entries reversed.
  unfoldable pub last_address : Text → List Text → Text
  last_address remote [] = client_address remote
  last_address remote (entry ∷ before) = elim (parse_ip (trim_space entry)) [
    | none ↦ last_address remote before
    | some address ↦ address
  ]

  unfoldable pub proxied_client_address : Text → Text → Text
  proxied_client_address remote forwarded = last_address remote (reverse (split_comma forwarded))

  -- The address that the limiter counts under.
  unfoldable pub limited_client : Bool → Text → Text → Text
  limited_client trust_proxy remote forwarded =
      if trust_proxy then proxied_client_address remote forwarded else client_address remote

abbrev pub has_comma : Text → Bool
has_comma [] = false
has_comma (c ∷ s) = if c == b',' then true else has_comma s

split_comma-whole : (e : Text) → has_comma e ≡ false → split_comma e ≡ e ∷ []
unfolding split_comma
split_comma-whole [] h = refl
split_comma-whole (c ∷ e) h = ground (arith, split_comma-whole e)

extended :
    (c : ℕ) (ws : List Text) (e : Text) → ws ≢ [] → extend c (ws ++ e ∷ []) ≡ extend c ws ++ e ∷ []
extended c [] e h = absurd (h refl)
extended c (w ∷ ws) e h = refl

extend-nonempty : (c : ℕ) (ws : List Text) → extend c ws ≢ []
extend-nonempty c [] = ground arith
extend-nonempty c (w ∷ ws) = ground arith

split_comma-nonempty : (s : Text) → split_comma s ≢ []
unfolding split_comma
split_comma-nonempty [] = ground arith
split_comma-nonempty (c ∷ s) = ground (arith, extend-nonempty c (split_comma s))

extend-append :
    (c : ℕ) (s e : Text) → extend c (split_comma s ++ e ∷ []) ≡ extend c (split_comma s) ++ e ∷ []
unfolding split_comma
extend-append c [] e = refl
extend-append c (d ∷ s) e = extended c (split_comma (d ∷ s)) e (split_comma-nonempty (d ∷ s))

split_comma-append :
    (s e : Text) → has_comma e ≡ false → split_comma (s ++ b',' ∷ e) ≡ split_comma s ++ e ∷ []
unfolding split_comma
split_comma-append [] e h = ground (arith, split_comma-whole e)
split_comma-append (c ∷ s) e h = ground (arith, split_comma-append s e, extend-append c s e)

-- Behind a proxy that appends the address it saw (a text without a comma that parses), whatever a
-- client sends in the header before it, and whatever the connection's own address is, the client is
-- counted under the address that the proxy saw.
pub limited_client-append :
    (split_host parse_ip : Text → Option Text) (remote sent seen address : Text)
    → has_comma seen ≡ false
    → parse_ip (trim_space seen) ≡ some address
    → limited_client split_host parse_ip true remote (sent ++ b',' ∷ seen) ≡ address
unfolding limited_client proxied_client_address last_address
limited_client-append split_host parse_ip remote sent seen address h p = ground (
  arith,
  split_comma-append sent seen h,
  reverse-append (split_comma sent) (seen ∷ []),
  ap (λ ws. last_address split_host parse_ip remote (reverse ws)) (split_comma-append sent seen h),
  ap (λ ws. last_address split_host parse_ip remote ws)
      (reverse-append (split_comma sent) (seen ∷ [])),
)
