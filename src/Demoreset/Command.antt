-- ===== src/Demoreset/Command.antt =====
-- api/cmd/resetdemo/main.go: the command around the reset. `phrase` and `url` are the variables
-- RESET_CONFIRM and DATABASE_URL.
use learning_center_referenc.Prelude.{
  true, ℕ, ◌≡◌, ◌≢◌, not, String, inl, inr, [], arith, if◌then◌else◌, Text, text_eq, text_eq_iff,
  eq_iff,
}
use learning_center_referenc.Store.Result.{Err, Result, ok, err, Env}
use learning_center_referenc.Store.Schema.{Db}
use learning_center_referenc.Store.Connect.{Pool, Driver, Connected-cases, opened, refused, new}
use learning_center_referenc.Demoreset.{confirm, confirm_value, reset}

-- How the command ends.
pub data Ending : Type 0 where
  unconfirmed url_required unreachable : Ending
  failed_ : Err → Ending
  complete : ℕ → Ending

abbrev ending_of : Result ℕ → Ending
ending_of (ok n) = complete n
ending_of (err e) = failed_ e

unfoldable pub reset_command : Driver → (phrase : String) (url : Text) → Env → Db → Db × Ending
reset_command driver phrase url env db =
    if not (confirm phrase)
    then (db, unconfirmed)
    else if text_eq url []
    then (db, url_required)
    else elim (new driver url) [
      | refused e ↦ (db, unreachable)
      | opened pool ↦ ((reset env db).0, ending_of (reset env db).1)
    ]

confirm_exact : (phrase : String) → confirm phrase ≡ true → phrase ≡ confirm_value
unfolding confirm
confirm_exact phrase h = (eq_iff phrase confirm_value).0 h

-- Only the exact phrase, with a database that is named and reached, lets the command reset.
pub reset_command_guarded :
    (driver : Driver) (phrase : String) (url : Text) (env : Env) (db : Db)
    → (reset_command driver phrase url env db).0 ≢ db
    → (phrase ≡ confirm_value)
      × (url ≢ [])
      × ((pool : Pool) × (new driver url ≡ opened pool))
      × ((reset_command driver phrase url env db).0 ≡ (reset env db).0)
unfolding reset_command
reset_command_guarded driver phrase url env db changes =
    let named = text_eq_iff url [] in
    elim (Connected-cases (new driver url)) [
      | inr (e, shut) ↦ absurd (ground (arith, changes))
      | inl (pool, up) ↦
          (ground (arith, confirm_exact phrase), ground (arith, named), (pool, up), ground arith)
    ]
