-- ===== src/Store/Result.antt =====
-- The errors of store.go, and the calls of the database that can fail.
use learning_center_referenc.Prelude.{
  String, Bool, true, false, Option, none, some, ◌≡◌, refl, ◌⊎◌, inl, inr, if◌then◌else◌,
}
use learning_center_referenc.Clock.{Instant}
use learning_center_referenc.Learning.{Uuid}

-- The sentinel errors, and any other error, which the code wraps under the name of its step.
pub data Err : Type 0 where
  not_found forbidden out_of_order enrollment_withdrawn : Err
  failed : String → Err

pub data Result {ℓ} (A : Type ℓ) : Type ℓ where
  ok : A → Result A
  err : Err → Result A

infixl 5 ◌>>=◌ ◌>>◌
abbrev pub ◌>>=◌ {ℓ κ} : {A : Type ℓ} {B : Type κ} → Result A → (A → Result B) → Result B
ok a >>= next = next a
err e >>= next = err e

-- A row that must be there.
abbrev pub require {ℓ} : {A : Type ℓ} → Err → Option A → Result A
require e none = err e
require e (some a) = ok a

abbrev pub guard : Bool → Err → Result (Unit {0})
guard true e = ok tt
guard false e = err e

abbrev pub ◌>>◌ {ℓ} : {B : Type ℓ} → Result (Unit {0}) → Result B → Result B
step >> rest = step >>= λ _. rest

-- What an operation meets: the clock of the process, the clock of the database, the id that
-- `gen_random_uuid()` returns, and which of its steps the database fails.
pub record Env : Type 0 where
  pub now : Instant
  pub db_now : Instant
  pub fresh : Uuid
  pub fails : String → Bool

abbrev pub attempt : Env → String → Result (Unit {0})
attempt env step = if env.fails step then err (failed step) else ok tt

-- No call of the database fails.
abbrev pub Healthy : Env → Type 0
Healthy env = (step : String) → env.fails step ≡ false

pub Result-cases {ℓ} :
    {A : Type ℓ} (m : Result A) → ((a : A) × (m ≡ ok a)) ⊎ ((e : Err) × (m ≡ err e))
Result-cases (ok a) = inl (a, refl)
Result-cases (err e) = inr (e, refl)
