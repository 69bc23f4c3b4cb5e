-- ===== src/Httpapi/Router/Bearer.antt =====
-- The credential in the header Authorization.
use learning_center_referenc.Prelude.{
  ◌≡◌, ◌↔◌, refl, inl, inr, some, List, [], ◌∷◌, ◌++◌, arith, ap, ◌∙◌, Text, codes, text_eq,
  text_eq_iff, is_space, Bool-cases, fields, All, IsWord, spaced, fields-spaced, fields-IsWord,
}
use learning_center_referenc.Httpapi.Router.{bearer_token, second_of_two}

second_of_words :
    (words : List Text) (raw : Text)
    → All IsWord words
    → second_of_two words ≡ some raw
    → IsWord raw
second_of_words [] raw h e = absurd (ground arith)
second_of_words (a ∷ []) raw h e = absurd (ground arith)
second_of_words (a ∷ b ∷ []) raw h e = let same : b ≡ raw = ground arith in rw (← same) h.1.0
second_of_words (a ∷ b ∷ c ∷ rest) raw h e = absurd (ground arith)

bearer-IsWord : IsWord (codes "Bearer")
bearer-IsWord =
    unfold is_space in (λ e. ground arith, (refl, (refl, (refl, (refl, (refl, (refl, tt)))))))

second_accepted : (raw : Text) → IsWord raw → second_of_two (codes "Bearer" ∷ raw ∷ []) ≡ some raw
unfolding text_eq
second_accepted raw w = elim (Bool-cases (text_eq raw [])) [
  | inl blank ↦ absurd (w.0 ((text_eq_iff raw []).0 blank))
  | inr given ↦ ground arith
]

-- A credential that is sent after the word Bearer and a space is read back, exactly if it is not
-- empty and holds no space.
pub bearer_token_iff :
    (raw : Text) → (bearer_token (codes "Bearer" ++ 32 ∷ raw) ≡ some raw) ↔ IsWord raw
unfolding bearer_token spaced
bearer_token_iff raw = (
  λ h. second_of_words (fields (codes "Bearer" ++ 32 ∷ raw)) raw (fields-IsWord _) h,
  λ w.
      ap second_of_two (fields-spaced (codes "Bearer" ∷ raw ∷ []) (bearer-IsWord, (w, tt)))
      ∙ second_accepted raw w,
)
