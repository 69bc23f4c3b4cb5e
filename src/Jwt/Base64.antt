-- ===== src/Jwt/Base64.antt =====
-- `base64.RawURLEncoding`: groups of six bits as the letters, the digits, `-` and `_`, with no
-- padding. A list of bytes is a list of numbers below 256.
use learning_center_referenc.Prelude.{
  is_space, IsSolid, false, ℕ, ◌+◌, ◌-◌, ◌*◌, ◌/◌, ◌%◌, ◌<◌, ◌≡◌, ◌≢◌, refl, ◌&&◌, Option, none,
  some, List, [], ◌∷◌, arith, ltb, leb, ◌==◌, if◌then◌else◌, Text, All,
}

-- The character of six bits.
unfoldable pub letter : ℕ → ℕ
letter v =
    if ltb v 26
    then v + b'A'
    else if ltb v 52
    then v - 26 + b'a'
    else if ltb v 62
    then v - 52 + b'0'
    else if v == 62
    then b'-'
    else b'_'

-- EncodeToString
unfoldable pub encode : List ℕ → Text
encode [] = []
encode (a ∷ []) = letter (a / 4) ∷ letter (a % 4 * 16) ∷ []
encode (a ∷ b ∷ []) = letter (a / 4) ∷ letter (a % 4 * 16 + b / 16) ∷ letter (b % 16 * 4) ∷ []
encode (a ∷ b ∷ c ∷ rest) =
    letter (a / 4)
    ∷ letter (a % 4 * 16 + b / 16)
    ∷ letter (b % 16 * 4 + c / 64)
    ∷ letter (c % 64)
    ∷ encode rest

-- What a reader of the encoding does: the six bits of a character.
unfoldable pub six_bits : ℕ → Option ℕ
six_bits c =
    if leb b'A' c && leb c b'Z'
    then some (c - b'A')
    else if leb b'a' c && leb c b'z'
    then some (c - b'a' + 26)
    else if leb b'0' c && leb c b'9'
    then some (c - b'0' + 52)
    else if c == b'-'
    then some 62
    else if c == b'_'
    then some 63
    else none

-- The bytes of a whole or a last group, in front of those that follow.
abbrev group_of_two : Option ℕ → Option ℕ → Option (List ℕ)
group_of_two (some a) (some b) = some ((a * 4 + b / 16) ∷ [])
group_of_two _ _ = none

abbrev group_of_three : Option ℕ → Option ℕ → Option ℕ → Option (List ℕ)
group_of_three (some a) (some b) (some c) = some ((a * 4 + b / 16) ∷ (b % 16 * 16 + c / 4) ∷ [])
group_of_three _ _ _ = none

abbrev group_of_four : Option ℕ → Option ℕ → Option ℕ → Option ℕ → Option (List ℕ) → Option (List ℕ)
group_of_four (some a) (some b) (some c) (some d) (some rest) =
    some ((a * 4 + b / 16) ∷ (b % 16 * 16 + c / 4) ∷ (c % 4 * 64 + d) ∷ rest)
group_of_four _ _ _ _ _ = none

unfoldable pub decode : Text → Option (List ℕ)
decode [] = some []
decode (a ∷ []) = none
decode (a ∷ b ∷ []) = group_of_two (six_bits a) (six_bits b)
decode (a ∷ b ∷ c ∷ []) = group_of_three (six_bits a) (six_bits b) (six_bits c)
decode (a ∷ b ∷ c ∷ d ∷ rest) =
    group_of_four (six_bits a) (six_bits b) (six_bits c) (six_bits d) (decode rest)

abbrev pub IsByte : ℕ → Type 0
IsByte b = b < 256

six_bits-letter : (v : ℕ) → v < 64 → six_bits (letter v) ≡ some v
unfolding six_bits letter
six_bits-letter v h = ground arith

-- What RawURLEncoding writes for bytes can be read back, and gives those bytes.
pub decode-encode : (bytes : List ℕ) → All IsByte bytes → decode (encode bytes) ≡ some bytes
unfolding encode decode
decode-encode [] h = refl
decode-encode (a ∷ []) h = ground (arith, six_bits-letter (a / 4), six_bits-letter (a % 4 * 16))
decode-encode (a ∷ b ∷ []) h = ground (
  arith,
  six_bits-letter (a / 4),
  six_bits-letter (a % 4 * 16 + b / 16),
  six_bits-letter (b % 16 * 4),
)
decode-encode (a ∷ b ∷ c ∷ rest) h = ground (
  arith,
  six_bits-letter (a / 4),
  six_bits-letter (a % 4 * 16 + b / 16),
  six_bits-letter (b % 16 * 4 + c / 64),
  six_bits-letter (c % 64),
  decode-encode rest h.1.1.1,
)

-- What holds of the letters holds of an encoding.
pub encode-All :
    (P : ℕ → Type 0) → ((v : ℕ) → P (letter v)) → (bytes : List ℕ) → All P (encode bytes)
unfolding encode
encode-All P each [] = tt
encode-All P each (a ∷ []) = (each _, (each _, tt))
encode-All P each (a ∷ b ∷ []) = (each _, (each _, (each _, tt)))
encode-All P each (a ∷ b ∷ c ∷ rest) =
    (each _, (each _, (each _, (each _, encode-All P each rest))))

-- No character of an encoding is a dot.
abbrev pub Undotted : Text → Type 0
Undotted s = All (λ c. c ≢ b'.') s

letter_undotted : (v : ℕ) → letter v ≢ b'.'
unfolding letter
letter_undotted v = ground arith

pub encode-Undotted : (bytes : List ℕ) → Undotted (encode bytes)
encode-Undotted bytes = encode-All (λ c. c ≢ b'.') letter_undotted bytes

letter_solid : (v : ℕ) → is_space (letter v) ≡ false
unfolding letter is_space
letter_solid v = ground arith

pub encode-IsSolid : (bytes : List ℕ) → IsSolid (encode bytes)
encode-IsSolid bytes = encode-All (λ c. is_space c ≡ false) letter_solid bytes
