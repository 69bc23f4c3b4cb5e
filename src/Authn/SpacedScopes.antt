-- ===== src/Authn/SpacedScopes.antt =====
-- The scope claim as OAuth spells it: words with a space between them.
use mathlib.Core.List.{reverse, reverse-reverse}
use learning_center_referenc.Prelude.{
  ◌≡◌, ◌↔◌, refl, true, false, Option, none, some, List, [], ◌∷◌, arith, ap, Text, text_eq_iff,
  trim_space, trim_left, is_blank, All, IsWord, IsSolid, reverse_aux-IsSolid, spaced, fields-spaced,
}
use learning_center_referenc.Authn.{
  Claims, Token, str, granted, has_text, has_scope, decode_scopes, merge_scopes, oidc_verify_claims,
}
use learning_center_referenc.Authn.Scopes.{lists_scope, merge_scopes_iff}

trim_left-solid : (s : Text) → IsSolid s → trim_left s ≡ s
unfolding trim_left
trim_left-solid [] h = refl
trim_left-solid (c ∷ s) h = ground (arith, h.0)

trim_space-solid : (s : Text) → IsSolid s → trim_space s ≡ s
unfolding trim_space
trim_space-solid s h =
    rw (trim_left-solid s h, trim_left-solid (reverse s) (reverse_aux-IsSolid s [] h tt))
      (reverse-reverse s)

lists_scope-words :
    (scopes : List Text) (s : Text) → All IsWord scopes → lists_scope scopes s ≡ has_text scopes s
unfolding lists_scope has_text
lists_scope-words [] s h = refl
lists_scope-words (x ∷ rest) s h =
    ground (arith, trim_space-solid x h.0.1, lists_scope-words rest s h.1)

not_listed : (scopes : List Text) → All IsWord scopes → has_text scopes [] ≡ false
unfolding has_text
not_listed [] h = refl
not_listed (x ∷ rest) h = ground (arith, h.0.0, text_eq_iff x [], not_listed rest h.1)

-- A token whose one scope claim spells words with a space between them is accepted, if its
-- subject is not blank, and its claims carry exactly those words as scopes.
pub spaced_scopes_iff :
    (verify : Text → Option Token) (raw : Text) (t : Token) (scopes : List Text)
    → verify raw ≡ some t
    → is_blank t.subject ≡ false
    → t.scope ≡ some (str (spaced scopes))
    → t.scp ≡ none
    → All IsWord scopes
    → (c : Claims) × (oidc_verify_claims verify raw ≡ granted c)
      × (c.subject ≡ t.subject)
      × ((s : Text) → (has_scope c s ≡ true) ↔ (has_text scopes s ≡ true))
unfolding oidc_verify_claims decode_scopes
spaced_scopes_iff verify raw t scopes verified named scope scp words = (
  record { subject = t.subject; scopes = merge_scopes scopes [] },
  ground (arith, fields-spaced scopes words),
  refl,
  λ s. ground (
    arith,
    merge_scopes_iff scopes [] t.subject s,
    lists_scope-words scopes s words,
    not_listed scopes words,
    none_listed s,
    ap (has_text scopes),
  ),
)
  where
    none_listed : (s : Text) → lists_scope [] s ≡ false
    none_listed s = unfold lists_scope in refl
