-- ===== src/Store/Compliance.antt =====
-- `Store.LoadSafeguardingInputs`, `ListCompliance` and `LoadMemberCredentials`: the facts on file
-- about a member, as the eligibility rule and the credentials contract read them.
pub mod Facts
pub mod Eligible
use learning_center_referenc.Prelude.{
  ℕ, ◌*◌, ◌/◌, String, Text, Bool, true, false, not, ◌&&◌, ◌||◌, Option, none, some, List, [], ◌∷◌,
  map, ltb, leb, ◌==◌, str_eq, if◌then◌else◌, exists, where_, keyed, is_some, sort_by, str_leb,
}
use learning_center_referenc.Clock.{Instant, day, ℤ, pos}
use learning_center_referenc.Learning.{Uuid, Member, ComplianceMember}
use learning_center_referenc.Safeguarding.{
  Status, eligible, suspended, ineligible, Inputs, evaluate,
}
use learning_center_referenc.Credentials.{RoleCredential, Record}
use learning_center_referenc.Store.Result.{
  not_found, Result, ok, err, ◌>>=◌, ◌>>◌, guard, require, Env, attempt,
}
use learning_center_referenc.Store.Schema.{
  MemberRow, MemberRole, BackgroundCheck, CheckStatus, approved, SafeSportTraining,
  DisciplinaryHold, MemberCredential, Db,
}
use learning_center_referenc.Store.Queries.{member_by}
use learning_center_referenc.Store.Dashboard.{roles_of, resolve_member_by_subject}

-- (now() at time zone 'utc')::date, as an instant at midnight
abbrev pub today : Env → Instant
today env = env.db_now / day * day

-- The later of a date and a maximum so far.
abbrev pub later : Instant → Option Instant → Instant
later d none = d
later d (some e) = if ltb d e then e else d

-- select max(f) from rows where p; `none` where no row passes.
unfoldable pub max_date {ℓ} : {R : Type ℓ} → (R → Bool) → (R → Instant) → List R → Option Instant
max_date p f [] = none
max_date p f (r ∷ rows) =
    let rest = max_date p f rows in if p r then some (later (f r) rest) else rest

abbrev pub is_approved : CheckStatus → Bool
is_approved approved = true
is_approved _ = false

-- member_id = m and status = 'approved' and approved_at <= today
abbrev pub check_in_effect : Env → Uuid → BackgroundCheck → Bool
check_in_effect env m b =
    b.member_id == m && (is_approved b.status && leb b.approved_at (today env))

-- member_id = m and completed_at <= today
abbrev pub training_in_effect : Env → Uuid → SafeSportTraining → Bool
training_in_effect env m t = t.member_id == m && leb t.completed_at (today env)

-- member_id = m and lifted_at is null and placed_at <= now()
abbrev pub hold_in_effect : Env → Uuid → DisciplinaryHold → Bool
hold_in_effect env m h =
    h.member_id == m && (not (is_some h.lifted_at) && leb h.placed_at env.db_now)

-- The credentials of a member for a role that are in effect.
abbrev pub credential_in_effect : Env → Uuid → String → MemberCredential → Bool
credential_in_effect env m role c =
    c.member_id == m && (str_eq c.credential.role role && leb c.credential.issued_at (today env))

-- member_id = m and role in ('coach', 'referee')
abbrev pub needs_credential : Uuid → MemberRole → Bool
needs_credential m r = r.member_id == m && (str_eq r.role "coach" || str_eq r.role "referee")

-- For each such role of the member, the latest expiry of a credential in effect.
unfoldable pub latest_by_role : Env → Uuid → Db → List (Option Instant)
latest_by_role env m db =
    map
      (λ r.
        max_date (credential_in_effect env m r.role) (λ c. c.credential.expires_at) db.credentials)
      (where_ (needs_credential m) db.member_roles)

-- The loop over the roles: whether one has no credential, and the earliest of the latest expiries.
unfoldable pub weakest_link : Bool → Option Instant → List (Option Instant) → Bool × Option Instant
weakest_link missing weakest [] = (missing, weakest)
weakest_link missing weakest (none ∷ rest) = weakest_link true weakest rest
weakest_link missing weakest (some t ∷ rest) =
    weakest_link missing
      (elim weakest [ none ↦ some t | some w ↦ if ltb t w then some t else some w ]) rest

abbrev pub is_cons {ℓ} : {A : Type ℓ} → List A → Bool
is_cons [] = false
is_cons (_ ∷ _) = true

unfoldable pub role_expires : List (Option Instant) → Option Instant
role_expires roles =
    let (missing, weakest) = weakest_link false none roles in
    if is_cons roles && not missing then weakest else none

-- The facts about a member, as of the process's clock.
unfoldable pub inputs_of : Env → Uuid → Db → Inputs
inputs_of env m db =
    let roles = latest_by_role env m db in
    record {
      now = env.now;
      safe_sport_expires = max_date (training_in_effect env m) (λ t. t.expires_at) db.trainings;
      background_check_expires =
          max_date (check_in_effect env m) (λ b. b.expires_at) db.background_checks;
      active_hold_sources = map (λ h. h.source) (where_ (hold_in_effect env m) db.holds);
      grace_days = pos 0;
      role_credential_required = is_cons roles;
      role_credential_expires = role_expires roles;
    }

unfoldable pub load_safeguarding_inputs : Env → Uuid → Db → Result Inputs
load_safeguarding_inputs env m db = do
  attempt env "looking up member"
  guard (is_some (member_by db m)) not_found
  attempt env "background check"
  attempt env "safesport"
  attempt env "holds"
  attempt env "scanning hold"
  attempt env "iterating holds"
  attempt env "role credentials"
  attempt env "scanning role credential"
  attempt env "iterating role credentials"
  ok (inputs_of env m db)

-- The loop of `earliest`.
unfoldable pub earliest_from : Option Instant → List (Option Instant) → Option Instant
earliest_from result [] = result
earliest_from result (none ∷ rest) = earliest_from result rest
earliest_from result (some t ∷ rest) =
    earliest_from (elim result [ none ↦ some t | some r ↦ if ltb t r then some t else some r ]) rest

unfoldable pub earliest : List (Option Instant) → Option Instant
earliest values = earliest_from none values

abbrev pub status_text : Status → String
status_text eligible = "eligible"
status_text suspended = "suspended"
status_text ineligible = "ineligible_lapsed"

unfoldable pub compliance_of : Db → MemberRow → Inputs → ComplianceMember
compliance_of db m i =
    let decision = evaluate i in
    record {
      id = m.id;
      display_name = m.display_name;
      roles = roles_of db m.id;
      status = status_text decision.status;
      reason = decision.reason;
      next_expiration =
          earliest
            (i.background_check_expires ∷ i.safe_sport_expires ∷ i.role_credential_expires ∷ []);
    }

unfoldable pub compliance_each : Env → Db → List MemberRow → Result (List ComplianceMember)
compliance_each env db [] = ok []
compliance_each env db (m ∷ ms) =
    let rest = compliance_each env db ms in
    (do i ← load_safeguarding_inputs env m.id db; cs ← rest; ok (compliance_of db m i ∷ cs))

-- order by m.display_name
abbrev pub name_leb : MemberRow → MemberRow → Bool
name_leb a b = str_leb a.display_name b.display_name

unfoldable pub list_compliance : Env → Db → Result (List ComplianceMember)
list_compliance env db = do
  attempt env "listing compliance members"
  attempt env "scanning compliance member"
  attempt env "iterating compliance members"
  compliance_each env db (sort_by name_leb db.members)

-- order by role, expires_at desc, issued_at desc
unfoldable pub credential_leb : RoleCredential → RoleCredential → Bool
credential_leb a b =
    not (str_leb b.role a.role)
    || (str_eq a.role b.role
        && (ltb b.expires_at a.expires_at
            || (a.expires_at == b.expires_at && leb b.issued_at a.issued_at)))

unfoldable pub credentials_of : Db → Uuid → List RoleCredential
credentials_of db m = sort_by credential_leb (
    map (λ c. c.credential)
      (where_ (keyed (λ (c : MemberCredential). c.member_id) m) db.credentials))

unfoldable pub load_member_credentials : Env → Text → Db → Result Record
load_member_credentials env subject db = do
  m ← resolve_member_by_subject env subject db
  i ← load_safeguarding_inputs env m.id db
  attempt env "role credentials"
  attempt env "scanning role credential"
  attempt env "iterating role credentials"
  ok (record {
    member_id = m.id;
    subject = subject;
    roles = m.roles;
    inputs = i;
    role_credentials = credentials_of db m.id;
  })
