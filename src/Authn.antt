-- ===== src/Authn.antt =====
-- api/internal/authn/authn.go: bearer tokens into subjects and scopes.
pub mod Scopes
pub mod SpacedScopes
use mathlib.Core.List.{foldl}
use learning_center_referenc.Prelude.{
  ℕ, Bool, true, false, ◌||◌, ◌&&◌, not, Option, none, some, List, [], ◌∷◌, ◌++◌, String,
  if◌then◌else◌, Text, text_eq, trim_space, is_blank, fields,
}

pub data AuthError : Type 0 where
  invalid_credential unavailable : AuthError

pub data Verdict {ℓ} (A : Type ℓ) : Type ℓ where
  granted : A → Verdict A
  denied : AuthError → Verdict A

pub record Claims : Type 0 where
  pub subject : Text
  pub scopes : List Text

-- The loop of `HasScope`, and a lookup in the set of seen scopes.
unfoldable pub has_text : List Text → Text → Bool
has_text [] s = false
has_text (granted_ ∷ rest) s = text_eq granted_ s || has_text rest s

unfoldable pub has_scope : Claims → Text → Bool
has_scope c s = has_text c.scopes s

-- What go-oidc hands over for a token that it has verified: the subject, and the raw scope claims.
-- In an array a JSON null reads as the empty text.
pub data Json : Type 0 where
  null other : Json
  str : Text → Json
  arr : List Text → Json

pub record Token : Type 0 where
  pub subject : Text
  pub scope : Option Json
  pub scp : Option Json

-- scopeList.UnmarshalJSON; an absent claim leaves the list empty.
unfoldable pub decode_scopes : Option Json → Option (List Text)
decode_scopes none = some []
decode_scopes (some null) = some []
decode_scopes (some (str s)) = some (fields s)
decode_scopes (some (arr l)) = some l
decode_scopes (some other) = none

-- One round of mergeScopes; `merged` holds exactly the scopes that were seen.
unfoldable pub merge_scope : List Text → Text → List Text
merge_scope merged scope =
    let s = trim_space scope in
    if text_eq s [] || has_text merged s then merged else merged ++ s ∷ []

unfoldable pub merge_from : List Text → List Text → List Text
merge_from merged [] = merged
merge_from merged (s ∷ rest) = merge_from (merge_scope merged s) rest

unfoldable pub merge_scopes : List Text → List Text → List Text
merge_scopes a b = merge_from (merge_from [] a) b

abbrev merged_claims : Text → Option (List Text) → Option (List Text) → Verdict Claims
merged_claims subject (some a) (some b) =
    granted (record { subject = subject; scopes = merge_scopes a b })
merged_claims subject (some a) none = denied invalid_credential
merged_claims subject none _ = denied invalid_credential

-- OIDCVerifier.VerifyClaims, over what the token's own verification gives.
unfoldable pub oidc_verify_claims : (Text → Option Token) → Text → Verdict Claims
oidc_verify_claims verify raw = elim (verify raw) [
  | none ↦ denied invalid_credential
  | some t ↦
      if is_blank t.subject
      then denied invalid_credential
      else merged_claims t.subject (decode_scopes t.scope) (decode_scopes t.scp)
]

-- Verify of every verifier: the subject of VerifyClaims.
unfoldable pub subject_of : Verdict Claims → Verdict Text
subject_of (granted c) = granted c.subject
subject_of (denied e) = denied e

-- DemoVerifier.VerifyClaims: the map is a list in which the first entry of a key counts.
unfoldable pub demo_verify_claims : List (Text × Claims) → Text → Verdict Claims
demo_verify_claims [] raw = denied invalid_credential
demo_verify_claims ((token, c) ∷ rest) raw =
    if text_eq token raw
    then (if text_eq c.subject [] then denied invalid_credential else granted c)
    else demo_verify_claims rest raw

-- UnavailableVerifier
unfoldable pub unavailable_verify_claims : Text → Verdict Claims
unavailable_verify_claims raw = denied unavailable
