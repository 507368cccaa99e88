-- ===== src/Transfer/Ftp/Calendar.antt =====
-- `_parse_modify_time` and `_validate_unix_list_date`, and what they use of `datetime`. Digits are
-- ASCII digits.
use device_cli_tool.Base.{
  ℕ, ℤ, zero, suc, ◌+◌, ◌-◌, ◌*◌, ◌/◌, ◌%◌, Bool, not, ◌&&◌, ◌||◌, Option, none, some, List, [],
  ◌∷◌, ◌++◌, ◌==◌, ltb, leb, if◌then◌else◌, difference, Error, Result, ok, err, ftp_capability,
  raise_if,
}
use device_cli_tool.Text.{
  Str, codes, str_eq, is_digit, has_char, number_from, before_char, after_char,
}

pub record DateTime : Type 0 where
  pub year : ℕ
  pub month : ℕ
  pub day : ℕ
  pub hour : ℕ
  pub minute : ℕ
  pub second : ℕ

unfoldable pub is_leap : ℕ → Bool
is_leap y = y % 4 == 0 && (not (y % 100 == 0) || y % 400 == 0)

unfoldable pub days_in_month : ℕ → ℕ → ℕ
unfolding is_leap
days_in_month y m =
    if m == 2
    then (if is_leap y then 29 else 28)
    else if m == 4 || m == 6 || m == 9 || m == 11
    then 30
    else 31

-- Where `datetime(...)` does not raise ValueError.
unfoldable pub is_date_time : DateTime → Bool
is_date_time t =
    leb 1 t.year
    && leb t.year 9999
    && leb 1 t.month
    && leb t.month 12
    && leb 1 t.day
    && leb t.day (days_in_month t.year t.month)
    && ltb t.hour 24
    && ltb t.minute 60
    && ltb t.second 60

-- The days of the months before the `m`-th.
unfoldable pub days_before_month : ℕ → ℕ → ℕ
days_before_month y zero = 0
days_before_month y (suc zero) = 0
days_before_month y (suc (suc m)) = days_before_month y (suc m) + days_in_month y (suc m)

-- `date.toordinal()`: the first of January of the year 1 is day 1.
unfoldable pub ordinal : ℕ → ℕ → ℕ → ℕ
ordinal y m d =
    let before = y - 1 in
    before * 365 + before / 4 - before / 100 + before / 400 + days_before_month y m + d

-- `t.replace(tzinfo=timezone.utc).timestamp()`: the seconds since 1970, whose first day is 719163.
unfoldable pub timestamp : DateTime → ℤ
timestamp t =
    difference (ordinal t.year t.month t.day * 86400 + t.hour * 3600 + t.minute * 60 + t.second)
      (719163 * 86400)

-- A pattern: the numbers that a prefix of the text can stand for, with the rest, in the order in
-- which they are tried.
abbrev pub Matches : Type 0
Matches = List (ℕ × Str)

-- One digit between `low` and `high`, or none.
abbrev one_digit : ℕ → ℕ → Str → Matches
one_digit low high [] = []
one_digit low high (c ∷ s) =
    if leb (b'0' + low) c && leb c (b'0' + high) then (c - b'0', s) ∷ [] else []

-- The first digit is between `from` and `to`, the second between `low` and `high`.
abbrev two_digits : ℕ → ℕ → ℕ → ℕ → Str → Matches
two_digits from to low high [] = []
two_digits from to low high (c ∷ []) = []
two_digits from to low high (c ∷ d ∷ s) =
    if leb (b'0' + from) c && leb c (b'0' + to) && leb (b'0' + low) d && leb d (b'0' + high)
    then ((c - b'0') * 10 + (d - b'0'), s) ∷ []
    else []

abbrev four_digits : Str → Matches
four_digits (a ∷ b ∷ c ∷ d ∷ s) =
    if is_digit a && is_digit b && is_digit c && is_digit d
    then (number_from 0 (a ∷ b ∷ c ∷ d ∷ []), s) ∷ []
    else []
four_digits _ = []

abbrev spaced_digit : Str → Matches
spaced_digit [] = []
spaced_digit (c ∷ s) = if c == b' ' then one_digit 1 9 s else []

-- The directives of `strptime`: `%m`, `%d`, `%H`, `%M` and `%S`.
abbrev month_of : Str → Matches
month_of s = two_digits 1 1 0 2 s ++ (two_digits 0 0 1 9 s ++ one_digit 1 9 s)

abbrev day_of : Str → Matches
day_of s =
    two_digits 3 3 0 1 s
    ++ (two_digits 1 2 0 9 s ++ (two_digits 0 0 1 9 s ++ (one_digit 1 9 s ++ spaced_digit s)))

abbrev hour_of : Str → Matches
hour_of s = two_digits 2 2 0 3 s ++ (two_digits 0 1 0 9 s ++ one_digit 0 9 s)

abbrev minute_of : Str → Matches
minute_of s = two_digits 0 5 0 9 s ++ one_digit 0 9 s

abbrev second_of : Str → Matches
second_of s = two_digits 6 6 0 1 s ++ (two_digits 0 5 0 9 s ++ one_digit 0 9 s)

abbrev for_each : {A : Type 0} → Matches → (ℕ → Str → List A) → List A
for_each [] f = []
for_each ((n, s) ∷ matches) f = f n s ++ for_each matches f

abbrev single : {A : Type 0} → A → List A
single a = a ∷ []

unfoldable pub date_times : Str → List (DateTime × Str)
date_times s = for_each (four_digits s) λ year s. for_each (month_of s) λ month s.
    for_each (day_of s) λ day s. for_each (hour_of s) λ hour s. for_each (minute_of s) λ minute s.
      for_each (second_of s) λ second s. single (
        record {
          year = year;
          month = month;
          day = day;
          hour = hour;
          minute = minute;
          second = second;
        },
        s,
      )

-- The first match has to end with the text, and to be a date.
abbrev pub invalid_modify_time : Error
invalid_modify_time = ftp_capability "invalid FTP modify fact"

abbrev pub checked_time : List (DateTime × Str) → Result (Option ℤ)
checked_time [] = err invalid_modify_time
checked_time ((t, []) ∷ matches) =
    if is_date_time t then ok (some (timestamp t)) else err invalid_modify_time
checked_time ((t, c ∷ s) ∷ matches) = err invalid_modify_time

unfoldable pub parse_modify_time : Option Str → Result (Option ℤ)
parse_modify_time none = ok none
parse_modify_time (some []) = ok none
parse_modify_time (some (c ∷ s)) = checked_time (date_times (before_char b'.' (c ∷ s)))

abbrev month_names : List Str
month_names =
    codes "Jan"
    ∷ codes "Feb"
    ∷ codes "Mar"
    ∷ codes "Apr"
    ∷ codes "May"
    ∷ codes "Jun"
    ∷ codes "Jul"
    ∷ codes "Aug"
    ∷ codes "Sep"
    ∷ codes "Oct"
    ∷ codes "Nov"
    ∷ codes "Dec"
    ∷ []

abbrev index_of : ℕ → List Str → Str → Option ℕ
index_of n [] s = none
index_of n (name ∷ names) s = if str_eq name s then some n else index_of (suc n) names s

-- `_UNIX_MONTHS.get(month)`
abbrev pub month_number : Str → Option ℕ
month_number s = index_of 1 month_names s

-- `when` is `dd:dd` or `dddd`.
unfoldable pub unix_date : ℕ → ℕ → Str → DateTime
unix_date month day when =
    if has_char b':' when
    then record {
      year = 2000;
      month = month;
      day = day;
      hour = number_from 0 (before_char b':' when);
      minute = number_from 0 (after_char b':' when);
      second = 0;
    }
    else record {
      year = number_from 0 when;
      month = month;
      day = day;
      hour = 0;
      minute = 0;
      second = 0;
    }

unfoldable pub validate_unix_list_date : ℕ → ℕ → Str → Result (Unit {0})
validate_unix_list_date month day when =
    raise_if (not (is_date_time (unix_date month day when)))
      (ftp_capability "legacy UNIX LIST timestamp is invalid")
