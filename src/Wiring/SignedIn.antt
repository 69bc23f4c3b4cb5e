-- ===== src/Wiring/SignedIn.antt =====
-- The identity provider, the API's verifier and the router together: what a member with a token
-- that the provider signed is answered.
use learning_center_referenc.Prelude.{
  Distinct, ℕ, ◌≡◌, true, false, Bool, Option, none, some, ◌∷◌, ◌++◌, arith, Text, codes, find,
  is_blank, Option-cases, inl, inr, ◌∙◌, ap, IsWord,
}
use learning_center_referenc.Clock.{Instant}
use learning_center_referenc.Learning.{Uuid, Dashboard, has_role}
use learning_center_referenc.Authn.{Token, granted, oidc_verify_claims, decode_scopes, subject_of}
use learning_center_referenc.Jwt.{Crypto, sign}
use learning_center_referenc.Jwt.Parts.{sign-IsWord}
use learning_center_referenc.Fixture.{Authorization, Provider, issue, access_claims, id_claims}
use learning_center_referenc.Store.Result.{Env, Healthy, ok}
use learning_center_referenc.Store.Schema.{MemberRow, Db}
use learning_center_referenc.Store.Queries.{member_by}
use learning_center_referenc.Store.Invariant.{enrollment_ids}
use learning_center_referenc.Store.Dashboard.{
  has_subject, to_member, resolve_member_by_subject, load_dashboard,
}
use learning_center_referenc.Store.Dashboard.Lists.{HasCourses, load_dashboard_lists}
use learning_center_referenc.Httpapi.Deps.{verify_with}
use learning_center_referenc.Httpapi.Message.{Request, dashboard, Body, write_json}
use learning_center_referenc.Httpapi.Handlers.{handle_dashboard}
use learning_center_referenc.Httpapi.Router.{
  bearer_token, require_role, authenticate, member_route, dispatch,
}
use learning_center_referenc.Httpapi.Router.Bearer.{bearer_token_iff}
use learning_center_referenc.Wiring.{wired, learning_store}

issue-IsWord :
    (crypto : Crypto) (p : Provider) (now : Instant) (a : Authorization) (tokens : Text × Text)
    → issue crypto p now a ≡ some tokens
    → IsWord tokens.0
unfolding issue
issue-IsWord crypto p now a tokens e = elim (Option-cases (sign crypto (access_claims p now a))) [
  | inl n ↦ absurd (ground arith)
  | inr (access, s) ↦ elim (Option-cases (sign crypto (id_claims p now a))) [
    | inl n ↦ absurd (ground arith)
    | inr (id, s') ↦ sign-IsWord crypto (access_claims p now a) tokens.0 (ground arith)
  ]
]

-- A token without scope claims is accepted for its subject.
unscoped_accepted :
    (verify : Text → Option Token) (raw subject : Text)
    → verify raw ≡ some (record { subject = subject; scope = none; scp = none })
    → is_blank subject ≡ false
    → subject_of (oidc_verify_claims verify raw) ≡ granted subject
unfolding subject_of oidc_verify_claims decode_scopes
unscoped_accepted verify raw subject accepts named = ground arith

-- Let the provider issue tokens for an authorization, and let the verification of go-oidc accept
-- the access token, with the subject that it names and no scope claim. Let that subject not be blank
-- and be that of a member who is a learner and is also found by the member's id; let the ids of the
-- enrollments be distinct and every enrollment's course exist. Then, while the database answers, a
-- request for the dashboard with the token in its header, behind the word Bearer and a space, is
-- answered 200 with that member's own dashboard, and changes nothing.
pub signed_in_dashboard :
    (cast : Text → Option Uuid) (crypto : Crypto) (p : Provider) (now : Instant) (a : Authorization)
    (tokens : Text × Text) (verify : Text → Option Token) (env : Env) (pings trust_proxy : Bool)
    (rate_limit max_concurrent : ℕ) (req : Request) (db : Db) (m : MemberRow)
    → issue crypto p now a ≡ some tokens
    → verify tokens.0 ≡ some (record { subject = a.subject; scope = none; scp = none })
    → is_blank a.subject ≡ false
    → find (has_subject a.subject) db.members ≡ some m
    → member_by db m.id ≡ some m
    → has_role (to_member db m) "learner" ≡ true
    → Healthy env
    → Distinct (enrollment_ids db)
    → HasCourses db
    → req.endpoint ≡ dashboard
    → req.authorization ≡ codes "Bearer" ++ 32 ∷ tokens.0
    → let deps =
        wired cast env (oidc_verify_claims verify) pings rate_limit trust_proxy max_concurrent in
      (d : Dashboard) × (dispatch deps req db ≡ (db, write_json 200 (Body.dashboard d)))
      × (load_dashboard env m.id db ≡ ok d)
      × (d.member ≡ to_member db m)
unfolding dispatch member_route authenticate verify_with wired learning_store handle_dashboard
    require_role resolve_member_by_subject
signed_in_dashboard cast crypto p now a tokens verify env pings trust_proxy rate_limit
      max_concurrent req db m issued accepts named known keyed learner healthy keys courses asked
      sent =
    let (d, loads, own, once, order, listed) =
      load_dashboard_lists env m.id db healthy m keys courses keyed in
    let read : bearer_token req.authorization ≡ some tokens.0 =
      ap bearer_token sent
      ∙ (bearer_token_iff tokens.0).1 (issue-IsWord crypto p now a tokens issued) in
    let granted_to = unscoped_accepted verify tokens.0 a.subject accepts named in
    (d, ground (arith, read, granted_to, loads, healthy "resolving member"), loads, own)
