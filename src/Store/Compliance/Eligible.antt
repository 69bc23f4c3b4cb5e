-- ===== src/Store/Compliance/Eligible.antt =====
-- The eligibility rule, in terms of the rows on file.
use learning_center_referenc.Prelude.{
  ◌≡◌, refl, ◌↔◌, Bool, true, false, not, ◌&&◌, some, List, [], ◌∷◌, map, arith, exists, where_,
  ◌∙◌, ap, exists_congr, exists-map-where_, Option,
}
use learning_center_referenc.Clock.{Instant, pos}
use learning_center_referenc.Learning.{Uuid}
use learning_center_referenc.Safeguarding.{eligible, current, evaluate}
use learning_center_referenc.Safeguarding.Laws.{evaluate-eligible_iff}
use learning_center_referenc.Store.Result.{Env}
use learning_center_referenc.Store.Schema.{MemberRole, DisciplinaryHold, MemberCredential, Db}
use learning_center_referenc.Store.Compliance.{
  max_date, check_in_effect, training_in_effect, hold_in_effect, credential_in_effect,
  needs_credential, latest_by_role, is_cons, inputs_of,
}
use learning_center_referenc.Store.Compliance.Facts.{
  current-max_date, lapsed, current-role_expires, runs, current-runs,
}

-- A row that passes and whose expiry date is not over.
running_row {ℓ} :
    {R : Type ℓ} (env : Env) (p : R → Bool) (f : R → Instant) (rows : List R)
    → current env.now (max_date p f rows) (pos 0) ≡ exists (λ r. p r && runs env (f r)) rows
running_row env p f rows =
    current-max_date p f rows env.now (pos 0)
    ∙ exists_congr (λ r. p r && current env.now (some (f r)) (pos 0)) (λ r. p r && runs env (f r))
        rows (λ r. ap (λ b. p r && b) (current-runs env (f r)))

-- A role of the member that needs a credential, and has none in effect that runs.
abbrev pub uncovered : Env → Uuid → Db → MemberRole → Bool
uncovered env m db r =
    needs_credential m r
    && not (
        exists (λ c. credential_in_effect env m r.role c && runs env c.credential.expires_at)
          db.credentials)

uncovered-lapsed :
    (env : Env) (m : Uuid) (db : Db)
    → exists (lapsed env.now (pos 0)) (latest_by_role env m db)
      ≡ exists (uncovered env m db) db.member_roles
unfolding latest_by_role
uncovered-lapsed env m db =
    let latest = λ (r : MemberRole).
      max_date (credential_in_effect env m r.role)
        (λ (c : MemberCredential). c.credential.expires_at) db.credentials in
    exists-map-where_ latest (needs_credential m) (lapsed env.now (pos 0)) db.member_roles
    ∙ exists_congr (λ r. needs_credential m r && lapsed env.now (pos 0) (latest r))
        (uncovered env m db) db.member_roles
        (λ r.
          ap (λ b. needs_credential m r && not b)
            (running_row env (credential_in_effect env m r.role) (λ c. c.credential.expires_at)
              db.credentials))

lapsed_of_no_role :
    (rs : List (Option Instant)) (p : Option Instant → Bool)
    → is_cons rs ≡ false
    → exists p rs ≡ false
unfolding exists
lapsed_of_no_role [] p h = refl
lapsed_of_no_role (r ∷ rs) p h = ground arith

no_hold {ℓ κ} :
    {R : Type ℓ} {S : Type κ} (f : R → S) (p : R → Bool) (rows : List R)
    → (map f (where_ p rows) ≡ []) ↔ (exists p rows ≡ false)
unfolding where_ exists
no_hold f p [] = ground arith
no_hold f p (r ∷ rows) = ground (arith, no_hold f p rows)

-- A member is eligible exactly if no hold is in effect, a SafeSport training and an approved
-- background check are in effect and run, and so does a credential for each of the member's roles
-- that needs one.
pub evaluate-inputs_of_iff :
    (env : Env) (m : Uuid) (db : Db)
    → ((evaluate (inputs_of env m db)).status ≡ eligible) ↔ (
        (exists (hold_in_effect env m) db.holds ≡ false)
        × (exists (λ t. training_in_effect env m t && runs env t.expires_at) db.trainings ≡ true)
        × (exists (λ b. check_in_effect env m b && runs env b.expires_at) db.background_checks
            ≡ true)
        × (exists (uncovered env m db) db.member_roles ≡ false))
unfolding inputs_of
evaluate-inputs_of_iff env m db = ground (
  arith,
  evaluate-eligible_iff (inputs_of env m db),
  no_hold (λ (h : DisciplinaryHold). h.source) (hold_in_effect env m) db.holds,
  running_row env (training_in_effect env m) (λ t. t.expires_at) db.trainings,
  running_row env (check_in_effect env m) (λ b. b.expires_at) db.background_checks,
  current-role_expires env.now (pos 0) (latest_by_role env m db),
  uncovered-lapsed env m db,
  lapsed_of_no_role (latest_by_role env m db) (lapsed env.now (pos 0)),
)
