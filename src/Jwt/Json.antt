-- ===== src/Jwt/Json.antt =====
-- `json.Marshal` of a flat map: its keys in order, its texts escaped as Go escapes them for HTML,
-- its numbers in decimal; and the UTF-8 bytes of a text.
use learning_center_referenc.Prelude.{
  ℕ, zero, suc, ◌+◌, ◌-◌, ◌/◌, ◌%◌, Bool, ◌||◌, ◌&&◌, List, [], ◌∷◌, ◌++◌, ltb, leb, ◌==◌,
  if◌then◌else◌, Text, text_leb, sort_by,
}
use learning_center_referenc.Clock.{ℤ, pos, negsuc}

pub data Value : Type 0 where
  text : Text → Value
  number : ℤ → Value
  texts : List Text → Value

abbrev pub Object : Type 0
Object = List (Text × Value)

-- The decimal digits of `n` in front of `out`, for a number of at most `fuel` digits.
unfoldable pub digits_of : ℕ → ℕ → Text → Text
digits_of zero n out = out
digits_of (suc fuel) n out =
    let out' = (b'0' + n % 10) ∷ out in
    let rest = digits_of fuel (n / 10) out' in if ltb n 10 then out' else rest

-- A number has at most one digit more than it has units.
unfoldable pub decimal : ℕ → Text
decimal n = digits_of (n + 1) n []

unfoldable pub integer : ℤ → Text
integer (pos n) = decimal n
integer (negsuc n) = b'-' ∷ decimal (n + 1)

abbrev hex_digit : ℕ → ℕ
hex_digit d = if ltb d 10 then b'0' + d else b'a' + (d - 10)

-- `\u` and four hexadecimal digits.
unfoldable pub unicode_escape : ℕ → Text
unicode_escape c =
    b'\\'
    ∷ b'u'
    ∷ hex_digit (c / 4096 % 16)
    ∷ hex_digit (c / 256 % 16)
    ∷ hex_digit (c / 16 % 16)
    ∷ hex_digit (c % 16)
    ∷ []

-- The escape of one letter that has a short form.
abbrev short : ℕ → Text
short c = b'\\' ∷ c ∷ []

abbrev is_escaped : ℕ → Bool
is_escaped c = ltb c 32 || c == b'<' || c == b'>' || c == b'&' || c == 8232 || c == 8233

unfoldable pub escape : ℕ → Text
escape c =
    if c == b'"' || c == b'\\'
    then short c
    else if c == 8
    then short b'b'
    else if c == 12
    then short b'f'
    else if c == 10
    then short b'n'
    else if c == 13
    then short b'r'
    else if c == 9
    then short b't'
    else if is_escaped c
    then unicode_escape c
    else c ∷ []

unfoldable pub escape_all : Text → Text
escape_all [] = []
escape_all (c ∷ s) = escape c ++ escape_all s

unfoldable pub quote : Text → Text
quote s = b'"' ∷ escape_all s ++ b'"' ∷ []

-- The elements with commas between them.
unfoldable pub with_commas : List Text → Text
with_commas [] = []
with_commas (s ∷ []) = s
with_commas (s ∷ t ∷ rest) = s ++ b',' ∷ with_commas (t ∷ rest)

quote_each : List Text → List Text
quote_each [] = []
quote_each (s ∷ rest) = quote s ∷ quote_each rest

unfoldable pub write_value : Value → Text
unfolding quote_each
write_value (text s) = quote s
write_value (number z) = integer z
write_value (texts ts) = b'[' ∷ with_commas (quote_each ts) ++ b']' ∷ []

unfoldable pub write_entries : Object → List Text
write_entries [] = []
write_entries ((k, v) ∷ rest) = (quote k ++ b':' ∷ write_value v) ∷ write_entries rest

unfoldable pub marshal : Object → Text
marshal o = b'{' ∷ with_commas (write_entries (sort_by (λ e f. text_leb e.0 f.0) o)) ++ b'}' ∷ []

-- What stands for a number that is no code point: utf8.RuneError.
abbrev rune_of : ℕ → ℕ
rune_of c = if (leb 55296 c && leb c 57343) || ltb 1114111 c then 65533 else c

abbrev utf8_rune : ℕ → List ℕ → List ℕ
utf8_rune c rest =
    if ltb c 128
    then c ∷ rest
    else if ltb c 2048
    then (192 + c / 64) ∷ (128 + c % 64) ∷ rest
    else if ltb c 65536
    then (224 + c / 4096) ∷ (128 + c / 64 % 64) ∷ (128 + c % 64) ∷ rest
    else (240 + c / 262144) ∷ (128 + c / 4096 % 64) ∷ (128 + c / 64 % 64) ∷ (128 + c % 64) ∷ rest

-- []byte(s)
unfoldable pub utf8 : Text → List ℕ
utf8 [] = []
utf8 (c ∷ s) = utf8_rune (rune_of c) (utf8 s)
