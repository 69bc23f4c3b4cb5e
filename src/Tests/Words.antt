-- ===== src/Tests/Words.antt =====
-- The scope claim and the bearer credential on small inputs.
use learning_center_referenc.Prelude.{
  ◌≡◌, ◌↔◌, refl, true, false, Option, none, some, List, [], ◌∷◌, ◌++◌, arith, All, IsWord, Text,
  codes, spaced, is_space, is_blank,
}
use learning_center_referenc.Authn.{
  Claims, Token, str, granted, has_text, has_scope, oidc_verify_claims,
}
use learning_center_referenc.Authn.SpacedScopes.{spaced_scopes_iff}
use learning_center_referenc.Httpapi.Router.{bearer_token}
use learning_center_referenc.Httpapi.Router.Bearer.{bearer_token_iff}

abbrev scopes : List Text
scopes = codes "openid" ∷ codes "credentials:read" ∷ []

abbrev token : Token
token = record {
  subject = codes "demo|federation-api";
  scope = some (str (spaced scopes));
  scp = none;
}

abbrev verify : Text → Option Token
verify raw = some token

scope_words : All IsWord scopes
scope_words =
    unfold is_space in
    (
      (λ e. ground arith, (refl, (refl, (refl, (refl, (refl, (refl, tt))))))),
      (
        (
          λ e. ground arith,
          (
            refl,
            (
              refl,
              (
                refl,
                (
                  refl,
                  (
                    refl,
                    (
                      refl,
                      (
                        refl,
                        (refl, (refl, (refl, (refl, (refl, (refl, (refl, (refl, (refl, tt))))))))),
                      ),
                    ),
                  ),
                ),
              ),
            ),
          ),
        ),
        tt,
      ),
    )

scopes_spelled : spaced scopes ≡ codes "openid credentials:read"
scopes_spelled = unfold spaced in refl

subject_named : is_blank token.subject ≡ false
subject_named = unfold is_blank is_space in refl

spaced_scopes_iff_example :
    (c : Claims) × (oidc_verify_claims verify (codes "t") ≡ granted c)
    × (c.subject ≡ token.subject)
    × ((s : Text) → (has_scope c s ≡ true) ↔ (has_text scopes s ≡ true))
spaced_scopes_iff_example =
    spaced_scopes_iff verify (codes "t") token scopes refl subject_named refl refl scope_words

bearer_token_iff_example :
    (bearer_token (codes "Bearer" ++ 32 ∷ codes "openid") ≡ some (codes "openid"))
    ↔ IsWord (codes "openid")
bearer_token_iff_example = bearer_token_iff (codes "openid")
