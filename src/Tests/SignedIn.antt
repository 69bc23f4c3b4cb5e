-- ===== src/Tests/SignedIn.antt =====
-- A learner's token of the identity provider, at the dashboard of the small course.
use learning_center_referenc.Prelude.{
  ◌≡◌, refl, true, false, Option, none, some, if◌then◌else◌, [], ◌∷◌, ◌++◌, Text, codes, sort_by,
  text_leb, text_eq, find, is_blank, is_space,
}
use learning_center_referenc.Learning.{Uuid, Dashboard, has_role}
use learning_center_referenc.Authn.{Token, oidc_verify_claims}
use learning_center_referenc.Jwt.{encoded, unsigned, sign}
use learning_center_referenc.Jwt.Base64.{letter, encode}
use learning_center_referenc.Jwt.Json.{
  digits_of, decimal, integer, unicode_escape, escape, escape_all, quote, with_commas, write_value,
  write_entries, marshal, utf8,
}
use learning_center_referenc.Fixture.{
  Authorization, authorization_of, issue, unix, access_claims, id_claims,
}
use learning_center_referenc.Store.Result.{ok}
use learning_center_referenc.Store.Schema.{MemberRow}
use learning_center_referenc.Store.Queries.{member_by}
use learning_center_referenc.Store.Dashboard.{has_subject, to_member, roles_of, load_dashboard}
use learning_center_referenc.Store.Dashboard.Lists.{HasCourses}
use learning_center_referenc.Httpapi.Message.{Request, dashboard, Body, write_json}
use learning_center_referenc.Httpapi.Router.{dispatch}
use learning_center_referenc.Wiring.{wired}
use learning_center_referenc.Wiring.SignedIn.{signed_in_dashboard}
use learning_center_referenc.Tests.Login.{crypto, provider, choice}
use learning_center_referenc.Tests.Fixtures.{program, env, env-Healthy, half_db, half_db-Inv}

signing : Unit {0}
unfolding program text_eq sort_by text_leb has_role roles_of find is_blank is_space encoded unsigned
    sign letter encode digits_of decimal integer unicode_escape escape escape_all quote with_commas
    write_value write_entries marshal utf8 authorization_of issue unix access_claims id_claims
signing = tt

abbrev learner : Authorization
learner = authorization_of provider 1000 choice

abbrev tokens : Text × Text
tokens = elim (issue crypto provider 2000 learner) [ none ↦ ([], []) | some pair ↦ pair ]

tokens_issued : issue crypto provider 2000 learner ≡ some tokens
unfolding signing
tokens_issued = refl

-- The one token that this verifier knows.
abbrev verify : Text → Option Token
verify raw =
    if text_eq raw tokens.0
    then some (record { subject = codes "demo|learner"; scope = none; scp = none })
    else none

verify_accepts :
    verify tokens.0 ≡ some (record { subject = learner.subject; scope = none; scp = none })
unfolding signing
verify_accepts = refl

learner_named : is_blank learner.subject ≡ false
unfolding signing
learner_named = refl

abbrev ada : MemberRow
ada = record {
  id = 1;
  auth_subject = some (codes "demo|learner");
  display_name = "Ada";
  association_id = some 0xaa;
}

ada_known : find (has_subject learner.subject) half_db.members ≡ some ada
unfolding signing
ada_known = refl

ada_keyed : member_by half_db 1 ≡ some ada
unfolding signing
ada_keyed = refl

ada_learns : has_role (to_member half_db ada) "learner" ≡ true
unfolding signing
ada_learns = refl

half_db-catalog : HasCourses half_db
half_db-catalog = unfold find in (refl, tt)

abbrev cast : Text → Option Uuid
cast t = none

abbrev shows : Request
shows = record {
  endpoint = dashboard;
  param = [];
  lesson_param = [];
  authorization = codes "Bearer" ++ 32 ∷ tokens.0;
  remote = codes "10.0.0.1:80";
  forwarded = [];
}

signed_in_dashboard_example :
    let deps = wired cast env (oidc_verify_claims verify) true 60 false 8 in
    (d : Dashboard) × (dispatch deps shows half_db ≡ (half_db, write_json 200 (Body.dashboard d)))
    × (load_dashboard env 1 half_db ≡ ok d)
    × (d.member ≡ to_member half_db ada)
signed_in_dashboard_example =
    signed_in_dashboard cast crypto provider 2000 learner tokens verify env true false 60 8 shows
      half_db ada tokens_issued verify_accepts learner_named ada_known ada_keyed ada_learns
      env-Healthy half_db-Inv.formed.enrollment_keys half_db-catalog refl refl
