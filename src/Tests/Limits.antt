-- ===== src/Tests/Limits.antt =====
-- The limiter on a few calls.
use learning_center_referenc.Prelude.{
  ◌≡◌, refl, true, false, none, List, [], ◌∷◌, Text, codes, text_eq, arith,
}
use learning_center_referenc.Clock.{Instant}
use learning_center_referenc.Httpapi.RateLimit.{new_limiter, visit, put, sweep, swept, admit, allow}
use learning_center_referenc.Httpapi.RateLimit.Reference.{
  reference_allow, reference_answers, answers, new_limiter_refines,
}

limits : Unit {0}
unfolding text_eq new_limiter visit put sweep swept admit allow reference_allow reference_answers
    answers
limits = tt

abbrev calls : List (Instant × Text)
calls =
    (100, codes "a")
    ∷ (110, codes "a")
    ∷ (120, codes "a")
    ∷ (121, codes "b")
    ∷ (160, codes "a")
    ∷ (230, codes "a")
    ∷ []

third_refused :
    answers (new_limiter 2 60 false) calls ≡ true ∷ true ∷ false ∷ true ∷ true ∷ true ∷ []
unfolding limits
third_refused = refl

new_limiter_refines_example :
    answers (new_limiter 2 60 false) calls ≡ reference_answers 2 60 (λ d. none) calls
new_limiter_refines_example =
    new_limiter_refines 2 60 false calls (omega arith)
      (omega arith, (omega arith, (omega arith, (omega arith, (omega arith, (omega arith, tt))))))
