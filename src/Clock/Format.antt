-- ===== src/Clock/Format.antt =====
-- `time.Time.Format` for the two layouts of the credentials contract, on instants in UTC: the
-- proleptic Gregorian calendar, and zero-padded decimal fields.
use Prim.Native.String.{◌++◌}
use learning_center_referenc.Prelude.{
  ℕ, ◌+◌, ◌-◌, ◌*◌, ◌/◌, ◌%◌, String, ltb, leb, ◌==◌, if◌then◌else◌,
}

digit : ℕ → String
digit d =
    if d == 0
    then "0"
    else if d == 1
    then "1"
    else if d == 2
    then "2"
    else if d == 3
    then "3"
    else if d == 4
    then "4"
    else if d == 5
    then "5"
    else if d == 6
    then "6"
    else if d == 7
    then "7"
    else if d == 8
    then "8"
    else "9"

two_digits : ℕ → String
two_digits n = digit (n / 10 % 10) ++ digit (n % 10)

four_digits : ℕ → String
four_digits n = two_digits (n / 100) ++ two_digits (n % 100)

-- Year, month and day of the month of a day, counted from January 1, year 1. The count is moved
-- to March 1, year 0, so that a leap day ends its year.
civil : ℕ → ℕ × ℕ × ℕ
civil d =
    let z = d + 306 in
    let era = z / 146097 in
    let doe = z % 146097 in
    let yoe = (doe + doe / 36524 - doe / 1460 - doe / 146096) / 365 in
    let doy = doe + yoe / 100 - (365 * yoe + yoe / 4) in
    let mp = (5 * doy + 2) / 153 in
    let month = if ltb mp 10 then mp + 3 else mp - 9 in
    let year = yoe + era * 400 + (if leb month 2 then 1 else 0) in
    (year, month, doy + 1 - (153 * mp + 2) / 5)

date_text : ℕ × ℕ × ℕ → String
date_text (y, m, d) = four_digits y ++ "-" ++ two_digits m ++ "-" ++ two_digits d

-- t.Format("2006-01-02")
unfoldable pub format_date : ℕ → String
unfolding digit two_digits four_digits civil date_text
format_date t = date_text (civil (t / 86400000000000))

-- t.Format(time.RFC3339)
unfoldable pub format_rfc3339 : ℕ → String
unfolding digit two_digits format_date
format_rfc3339 t =
    let s = t / 1000000000 % 86400 in
    format_date t
    ++ "T"
    ++ two_digits (s / 3600)
    ++ ":"
    ++ two_digits (s / 60 % 60)
    ++ ":"
    ++ two_digits (s % 60)
    ++ "Z"
