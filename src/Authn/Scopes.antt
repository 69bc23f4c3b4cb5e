-- ===== src/Authn/Scopes.antt =====
-- Which scopes a verified token carries.
use learning_center_referenc.Prelude.{
  ◌≡◌, ◌≢◌, ◌↔◌, ◌⊎◌, inl, inr, Bool, true, false, not, ◌||◌, ◌&&◌, Option, some, List, [], ◌∷◌,
  ◌++◌, arith, Text, text_eq, text_eq_iff, trim_space, is_blank, Option-cases,
}
use learning_center_referenc.Authn.{
  Claims, Token, granted, has_text, has_scope, decode_scopes, merge_scope, merge_from, merge_scopes,
  oidc_verify_claims,
}

-- A scope of the list is `s` once its spaces are trimmed.
unfoldable pub lists_scope : List Text → Text → Bool
lists_scope [] s = false
lists_scope (x ∷ rest) s = text_eq (trim_space x) s || lists_scope rest s

has_text-snoc :
    (l : List Text) (x s : Text) → has_text (l ++ x ∷ []) s ≡ (has_text l s || text_eq x s)
unfolding has_text
has_text-snoc [] x s = ground arith
has_text-snoc (y ∷ l) x s = ground (arith, has_text-snoc l x s)

has_text_eq : (l : List Text) (s t : Text) → s ≡ t → has_text l s ≡ has_text l t
has_text_eq l s t e = cc

merge_scope_lem :
    (merged : List Text) (x s : Text)
    → has_text (merge_scope merged x) s
      ≡ (has_text merged s || (text_eq (trim_space x) s && not (text_eq s [])))
unfolding merge_scope
merge_scope_lem merged x s = ground (
  arith,
  text_eq_iff (trim_space x) [],
  text_eq_iff (trim_space x) s,
  text_eq_iff s [],
  has_text-snoc merged (trim_space x) s,
  has_text_eq merged (trim_space x) s,
)

merge_from_lem :
    (merged l : List Text) (s : Text)
    → has_text (merge_from merged l) s
      ≡ (has_text merged s || (lists_scope l s && not (text_eq s [])))
unfolding merge_from lists_scope
merge_from_lem merged [] s = ground arith
merge_from_lem merged (x ∷ l) s =
    ground (arith, merge_scope_lem merged x s, merge_from_lem (merge_scope merged x) l s)

-- A token that verifies carries a scope exactly if the scope is not empty and one of the two scope
-- claims lists it, up to the spaces around it.
pub merge_scopes_iff :
    (a b : List Text) (subject s : Text)
    → (has_scope (record { subject = subject; scopes = merge_scopes a b }) s ≡ true)
      ↔ ((s ≢ []) × ((lists_scope a s ≡ true) ⊎ (lists_scope b s ≡ true)))
unfolding has_scope merge_scopes has_text
merge_scopes_iff a b subject s =
    ground (arith, text_eq_iff s [], merge_from_lem [] a s, merge_from_lem (merge_from [] a) b s)

-- A verified token is accepted exactly if its subject is not blank and both scope claims can be
-- read; its claims then carry that subject.
pub oidc_verify_claims_iff :
    (verify : Text → Option Token) (raw : Text) (c : Claims)
    → (oidc_verify_claims verify raw ≡ granted c) ↔ (
        (t : Token) × (a : List Text) × (b : List Text) × (verify raw ≡ some t)
        × (is_blank t.subject ≡ false)
        × (decode_scopes t.scope ≡ some a)
        × (decode_scopes t.scp ≡ some b)
        × (c ≡ record { subject = t.subject; scopes = merge_scopes a b }))
unfolding oidc_verify_claims
oidc_verify_claims_iff verify raw c = (
  λ h. elim (Option-cases (verify raw)) [
    | inl bad ↦ absurd (ground arith)
    | inr (t, good) ↦ elim (Option-cases (decode_scopes t.scope)) [
      | inl bad ↦ absurd (ground arith)
      | inr (a, left) ↦ elim (Option-cases (decode_scopes t.scp)) [
        | inl bad ↦ absurd (ground arith)
        | inr (b, right) ↦ (t, a, b, good, ground arith, left, right, ground arith)
      ]
    ]
  ],
  λ p. ground (arith, p.3, p.4, p.5, p.6, p.7),
)
