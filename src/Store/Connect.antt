-- ===== src/Store/Connect.antt =====
-- Store.New, NewWithRole and CurrentRole: the pool that a store runs on. Parsing a URL, opening a
-- pool and running a statement are pgx and the database, so what they answer is a parameter.
use learning_center_referenc.Prelude.{
  refl, ◌⊎◌, inl, inr, ℕ, ◌≡◌, ◌≢◌, ◌≤◌, Bool, true, false, not, ◌&&◌, ◌||◌, Option, [], ◌∷◌, ◌++◌,
  arith, leb, ◌==◌, if◌then◌else◌, length, Text, codes, text_eq, text_eq_iff, All,
}

-- The connection's URL, and the role that every connection adopts; the empty text is the login's.
pub record Pool : Type 0 where
  pub url : Text
  pub role : Text

-- What pgx and the database answer: whether a URL parses, whether a pool opens, whether a
-- connection runs the statement given, and the current user of a pool.
pub record Driver : Type 0 where
  pub parses : Text → Bool
  pub opens : Text → Bool
  pub runs : (url statement : Text) → Bool
  pub current_user : Pool → Option Text

pub data ConnectError : Type 0 where
  parsing_url invalid_role connecting connecting_as_role : ConnectError

pub data Connected : Type 0 where
  opened : Pool → Connected
  refused : ConnectError → Connected

pub Connected-cases :
    (c : Connected) → ((p : Pool) × (c ≡ opened p)) ⊎ ((e : ConnectError) × (c ≡ refused e))
Connected-cases (opened p) = inl (p, refl)
Connected-cases (refused e) = inr (e, refl)

abbrev is_role_head : ℕ → Bool
is_role_head c = (leb b'a' c && leb c b'z') || c == b'_'

abbrev is_role_char : ℕ → Bool
is_role_char c = is_role_head c || (leb b'0' c && leb c b'9')

unfoldable pub all_role_chars : Text → Bool
all_role_chars [] = true
all_role_chars (c ∷ s) = is_role_char c && all_role_chars s

-- roleNameRe.MatchString
unfoldable pub is_role_name : Text → Bool
is_role_name [] = false
is_role_name (c ∷ s) = is_role_head c && all_role_chars s && leb (length s) 62

unfoldable pub set_role : Text → Text
set_role role = codes "set role \"" ++ role ++ codes "\""

unfoldable pub new_with_role : Driver → (url role : Text) → Connected
new_with_role driver url role =
    if not (driver.parses url)
    then refused parsing_url
    else if not (text_eq role []) && not (is_role_name role)
    then refused invalid_role
    else if not (driver.opens url)
    then refused connecting
    else if not (text_eq role []) && not (driver.runs url (set_role role))
    then refused connecting_as_role
    else opened (record { url = url; role = role })

unfoldable pub new : Driver → Text → Connected
new driver url = new_with_role driver url []

unfoldable pub current_role : Driver → Pool → Option Text
current_role driver pool = driver.current_user pool

all_role_chars-unquoted : (s : Text) → all_role_chars s ≡ true → All (λ c. c ≢ b'"') s
unfolding all_role_chars
all_role_chars-unquoted [] h = tt
all_role_chars-unquoted (c ∷ s) h = ground (arith, all_role_chars-unquoted s)

is_role_name-unquoted : (s : Text) → is_role_name s ≡ true → All (λ c. c ≢ b'"') s × (length s ≤ 63)
unfolding is_role_name
is_role_name-unquoted [] h = absurd (ground arith)
is_role_name-unquoted (c ∷ s) h = (ground (arith, all_role_chars-unquoted s), ground arith)

pub new_with_role_pool :
    (driver : Driver) (url role : Text) (pool : Pool)
    → new_with_role driver url role ≡ opened pool
    → (pool.url ≡ url) × (pool.role ≡ role)
unfolding new_with_role
new_with_role_pool driver url role pool h = ground arith

-- A pool that opens for a role has run the statement that sets it. The role is at most 63
-- characters, as many as PostgreSQL keeps of a name, and none of them ends the quotes around it.
pub new_with_role_adopts :
    (driver : Driver) (url role : Text) (pool : Pool)
    → new_with_role driver url role ≡ opened pool
    → role ≢ []
    → (pool ≡ record { url = url; role = role })
      × (driver.runs url (set_role role) ≡ true)
      × All (λ c. c ≢ b'"') role
      × (length role ≤ 63)
unfolding new_with_role
new_with_role_adopts driver url role pool h given =
    let named = text_eq_iff role [] in
    let (unquoted, short) = is_role_name-unquoted role (ground (arith, named)) in
    (ground (arith, named), ground (arith, named), unquoted, short)
