-- ===== src/Credentials/Agreement.antt =====
-- credentials.Build against safeguarding.Evaluate.
use learning_center_referenc.Prelude.{◌≡◌, ◌↔◌, ◌≢◌, true, List, [], ◌∷◌, map, arith, String}
use learning_center_referenc.Safeguarding.{eligible, suspended, current}
use learning_center_referenc.Safeguarding.Laws.{evaluate-eligible_iff, evaluate-suspended_iff}
use learning_center_referenc.Credentials.{Record, active_hold, build}

map-holds-eq-nil : (sources : List String) → (map active_hold sources ≡ []) ↔ (sources ≡ [])
map-holds-eq-nil [] = ground arith
map-holds-eq-nil (s ∷ rest) = ground arith

-- The status sent is eligible exactly if the response lists no hold, both safeguarding facts are
-- sent as valid, and a required role credential is current; it is suspended exactly if the
-- response lists a hold.
pub build_agrees :
    (r : Record)
    → (((build r).eligibility.status ≡ eligible) ↔ (
        ((build r).holds ≡ [])
        × ((build r).safeguarding.safe_sport_training.is_valid ≡ true)
        × ((build r).safeguarding.background_check.is_valid ≡ true)
        × (r.inputs.role_credential_required ≡ true
            → current r.inputs.now r.inputs.role_credential_expires r.inputs.grace_days ≡ true)))
      × (((build r).eligibility.status ≡ suspended) ↔ ((build r).holds ≢ []))
unfolding build
build_agrees r = ground (
  arith,
  evaluate-eligible_iff r.inputs,
  evaluate-suspended_iff r.inputs,
  map-holds-eq-nil r.inputs.active_hold_sources,
)
