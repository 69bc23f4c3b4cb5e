-- ===== src/Store/Compliance/Facts.antt =====
-- What the eligibility of a member means in terms of the rows on file.
use learning_center_referenc.Prelude.{
  ◌+◌, ◌≡◌, refl, Bool, true, false, not, ◌&&◌, Option, none, some, List, [], ◌∷◌, arith, ltb,
  if◌then◌else◌, exists, Bool-cases, inl, inr,
}
use learning_center_referenc.Clock.{Instant, day, ℤ, pos, duration_of_days}
use learning_center_referenc.Safeguarding.{current}
use learning_center_referenc.Store.Result.{Env}
use learning_center_referenc.Store.Compliance.{max_date, weakest_link, is_cons, role_expires}

-- A later expiry is current for longer.
current_mono :
    (now d e : Instant) (g : ℤ)
    → ltb d e ≡ true
    → current now (some d) g ≡ true
    → current now (some e) g ≡ true
unfolding current
current_mono now d e g h c = ground arith

-- The latest expiry is current exactly if one of the rows is.
pub current-max_date {ℓ} :
    {R : Type ℓ} (p : R → Bool) (f : R → Instant) (rows : List R) (now : Instant) (g : ℤ)
    → current now (max_date p f rows) g ≡ exists (λ r. p r && current now (some (f r)) g) rows
unfolding max_date exists current
current-max_date p f [] now g = refl
current-max_date p f (r ∷ rows) now g = ground (arith, current-max_date p f rows now g)

abbrev pub lapsed : Instant → ℤ → Option Instant → Bool
lapsed now g r = not (current now r g)

missing_stays :
    (w : Option Instant) (rs : List (Option Instant)) → (weakest_link true w rs).0 ≡ true
unfolding weakest_link
missing_stays w [] = refl
missing_stays w (none ∷ rs) = missing_stays w rs
missing_stays w (some t ∷ rs) =
    missing_stays (elim w [ none ↦ some t | some w ↦ if ltb t w then some t else some w ]) rs

abbrev chosen : Bool × Option Instant → Option Instant
chosen r = if r.0 then none else r.1

earlier_current :
    (now t w : Instant) (g : ℤ)
    → current now (if ltb t w then some t else some w) g
      ≡ (current now (some t) g && current now (some w) g)
unfolding current
earlier_current now t w g = ground arith

weakest_link_lem :
    (now : Instant) (g : ℤ) (w : Instant) (rs : List (Option Instant))
    → current now (chosen (weakest_link false (some w) rs)) g
      ≡ (current now (some w) g && not (exists (lapsed now g) rs))
unfolding weakest_link exists
weakest_link_lem now g w [] = ground arith
weakest_link_lem now g w (none ∷ rs) =
    ground (arith, missing_stays (some w) rs, nothing_current now g)
  where
    nothing_current : (now : Instant) (g : ℤ) → current now none g ≡ false
    nothing_current now g = unfold current in refl
weakest_link_lem now g w (some t ∷ rs) = elim (Bool-cases (ltb t w)) [
  | inl less ↦ ground (arith, weakest_link_lem now g t rs, earlier_current now t w g)
  | inr more ↦ ground (arith, weakest_link_lem now g w rs, earlier_current now t w g)
]

current-none : (now : Instant) (g : ℤ) → current now none g ≡ false
unfolding current
current-none now g = refl

-- The weakest link is current exactly if every role has a current credential.
pub current-role_expires :
    (now : Instant) (g : ℤ) (rs : List (Option Instant))
    → is_cons rs ≡ true
    → current now (role_expires rs) g ≡ not (exists (lapsed now g) rs)
unfolding role_expires weakest_link exists
current-role_expires now g [] h = ground arith
current-role_expires now g (none ∷ rs) h = ground (arith, missing_stays none rs, current-none now g)
current-role_expires now g (some t ∷ rs) h = ground (arith, weakest_link_lem now g t rs)

-- A date is not over: it runs to the end of the day.
abbrev pub runs : Env → Instant → Bool
runs env expires = ltb env.now (expires + day)

pub current-runs : (env : Env) (e : Instant) → current env.now (some e) (pos 0) ≡ runs env e
unfolding current duration_of_days
current-runs env e = ground arith
