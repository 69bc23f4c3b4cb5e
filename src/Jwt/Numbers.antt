-- ===== src/Jwt/Numbers.antt =====
-- The decimal digits of a number: enough are asked for, and they read back as the number.
use learning_center_referenc.Prelude.{
  ℕ, zero, suc, ◌+◌, ◌/◌, ◌%◌, ◌<◌, ◌≡◌, refl, some, [], ◌∷◌, arith, ltb, Text, Bool-cases, inl,
  inr, ◌∙◌,
}
use learning_center_referenc.Config.{digits_from}
use learning_center_referenc.Jwt.Json.{digits_of, decimal}

digits_from-digits_of :
    (fuel n : ℕ) (out : Text) → n < fuel → digits_from 0 (digits_of fuel n out) ≡ digits_from n out
unfolding digits_of digits_from
digits_from-digits_of zero n out h = absurd (omega arith)
digits_from-digits_of (suc fuel) n out h =
    let last = (b'0' + n % 10) ∷ out in
    elim (Bool-cases (ltb n 10)) [
      | inl small ↦ ground arith
      | inr large ↦ ground (arith, digits_from-digits_of fuel (n / 10) last (ground arith))
    ]

-- The digits that are written for a number are read as that number.
digits_from-decimal : (n : ℕ) → digits_from 0 (decimal n) ≡ some n
unfolding decimal
digits_from-decimal n =
    digits_from-digits_of (n + 1) n [] (omega arith) ∙ (unfold digits_from in refl)
