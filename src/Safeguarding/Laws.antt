-- ===== src/Safeguarding/Laws.antt =====
-- What the eligibility decision means, and how it moves with time.
use learning_center_referenc.Prelude.{
  ℕ, ◌+◌, ◌*◌, ◌/◌, ◌≤◌, ◌≡◌, ◌↔◌, true, Option, none, some, [], ◌∷◌, arith, List, All, ◌≢◌,
}
use learning_center_referenc.Clock.{Instant, day, ℤ, pos, duration_of_days_exact}
use learning_center_referenc.Safeguarding.{
  eligible, suspended, Inputs, Cred, current, required, check_cred, check_all, evaluate,
}

-- A credential whose expiry is the date `d` is current exactly through the end of that day, plus
-- the grace days (at most 106751, where int64 nanoseconds end).
pub current_iff :
    (now d g : ℕ) → g ≤ 106751 → (current now (some (d * day)) (pos g) ≡ true) ↔ (now / day ≤ d + g)
unfolding current
current_iff now d g h = ground (arith, duration_of_days_exact g)

-- What has lapsed stays lapsed: a credential that is current later is current now.
pub current_antitone :
    (now later : Instant) (expires : Option Instant) (g : ℤ)
    → now ≤ later
    → current later expires g ≡ true
    → current now expires g ≡ true
unfolding current
current_antitone now later none g h c = c
current_antitone now later (some e) g h c = ground arith

-- Every required credential is on file and current.
abbrev pub AllCurrent : Inputs → Type 0
AllCurrent in_ =
    (current in_.now in_.safe_sport_expires in_.grace_days ≡ true)
    × (current in_.now in_.background_check_expires in_.grace_days ≡ true)
    × (in_.role_credential_required ≡ true
        → current in_.now in_.role_credential_expires in_.grace_days ≡ true)

check_all-eligible_iff :
    (now : Instant) (g : ℤ) (cs : List Cred)
    → ((check_all now g cs).status ≡ eligible) ↔ All (λ c. current now c.expires g ≡ true) cs
unfolding check_all check_cred current
check_all-eligible_iff now g [] = ground arith
check_all-eligible_iff now g (c ∷ cs) = ground (arith, check_all-eligible_iff now g cs)

check_all-ne-suspended :
    (now : Instant) (g : ℤ) (cs : List Cred) → (check_all now g cs).status ≢ suspended
unfolding check_all check_cred
check_all-ne-suspended now g [] = ground arith
check_all-ne-suspended now g (c ∷ cs) = ground (arith, check_all-ne-suspended now g cs)

-- A member is eligible exactly if no hold is active and every required credential is current.
pub evaluate-eligible_iff :
    (i : Inputs) → ((evaluate i).status ≡ eligible) ↔ ((i.active_hold_sources ≡ []) × AllCurrent i)
unfolding evaluate required
evaluate-eligible_iff i = ground (arith, check_all-eligible_iff i.now i.grace_days (required i))

-- A member is suspended exactly if a hold is active, whatever the credentials are.
pub evaluate-suspended_iff :
    (i : Inputs) → ((evaluate i).status ≡ suspended) ↔ (i.active_hold_sources ≢ [])
unfolding evaluate
evaluate-suspended_iff i = ground (arith, check_all-ne-suspended i.now i.grace_days (required i))

-- With the same facts on file, eligibility is only ever lost as time passes: who is eligible at a
-- later instant was eligible at every earlier one.
pub evaluate-eligible_antitone :
    (i : Inputs) (earlier : Instant)
    → earlier ≤ i.now
    → (evaluate i).status ≡ eligible
    → (evaluate (record i { now = earlier })).status ≡ eligible
evaluate-eligible_antitone i earlier h e =
    let facts = (evaluate-eligible_iff i).0 e in
    let g = i.grace_days in
    (evaluate-eligible_iff (record i { now = earlier })).1 (
      facts.0,
      (
        current_antitone earlier i.now i.safe_sport_expires g h facts.1.0,
        current_antitone earlier i.now i.background_check_expires g h facts.1.1,
        λ r. current_antitone earlier i.now i.role_credential_expires g h (facts.1.2 r),
      ),
    )
