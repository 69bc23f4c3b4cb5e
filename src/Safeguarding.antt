-- ===== src/Safeguarding.antt =====
-- api/internal/safeguarding/eligibility.go: whether an adult participant is eligible now.
pub mod Laws
use Prim.Native.String.{◌++◌ as text_append}
use learning_center_referenc.Prelude.{
  String, Bool, true, false, Option, none, some, List, [], ◌∷◌, ◌++◌, ◌+◌, ltb, if◌then◌else◌,
}
use learning_center_referenc.Clock.{Instant, day, ℤ, duration_of_days, add}

pub data Status : Type 0 where
  eligible suspended ineligible : Status

pub record Inputs : Type 0 where
  pub now : Instant
  pub safe_sport_expires : Option Instant
  pub background_check_expires : Option Instant
  pub active_hold_sources : List String
  pub grace_days : ℤ
  pub role_credential_required : Bool
  pub role_credential_expires : Option Instant

pub record Decision : Type 0 where
  pub status : Status
  pub reason : String

-- `AddDate(0, 0, 1)` adds one day of 24 hours, the timestamps being in UTC.
unfoldable pub current : Instant → Option Instant → ℤ → Bool
current now none grace_days = false
current now (some expires) grace_days = ltb now (add (expires + day) (duration_of_days grace_days))

-- strings.Join(sources, ", ")
unfoldable pub join : List String → String
join [] = ""
join (s ∷ []) = s
join (s ∷ t ∷ rest) = text_append s (text_append ", " (join (t ∷ rest)))

pub record Cred : Type 0 where
  pub name : String
  pub expires : Option Instant

unfoldable pub required : Inputs → List Cred
required in_ =
    record { name = "SafeSport certification"; expires = in_.safe_sport_expires }
    ∷ record { name = "background check"; expires = in_.background_check_expires }
    ∷ (if in_.role_credential_required
        then record { name = "role credential"; expires = in_.role_credential_expires } ∷ []
        else [])

-- One round of the loop over `required`: the decision to return, if the credential fails.
unfoldable pub check_cred : Instant → ℤ → Cred → Option Decision
check_cred now grace_days c = elim c.expires [
  | none ↦ some (record { status = ineligible; reason = text_append "missing " c.name })
  | some e ↦
      if current now (some e) grace_days
      then none
      else some (record { status = ineligible; reason = text_append "expired " c.name })
]

unfoldable pub check_all : Instant → ℤ → List Cred → Decision
check_all now grace_days [] = record {
  status = eligible;
  reason = "all safeguarding requirements current";
}
check_all now grace_days (c ∷ cs) =
    let rest = check_all now grace_days cs in
    elim (check_cred now grace_days c) [ none ↦ rest | some d ↦ d ]

unfoldable pub evaluate : Inputs → Decision
unfolding current join required check_cred check_all
evaluate in_ = elim in_.active_hold_sources [
  | [] ↦ check_all in_.now in_.grace_days (required in_)
  | s ∷ rest ↦ record {
    status = suspended;
    reason = text_append "active disciplinary hold (" (text_append (join (s ∷ rest)) ")");
  }
]
