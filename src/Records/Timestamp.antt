-- ===== src/Records/Timestamp.antt =====
-- `validate_timestamp` and `parse_timestamp` of continuity_receipt/records.py: the wire spelling,
-- the calendar, and the order of the instants.
use continuity_receipt.Base.{
  ℕ, zero, suc, ◌+◌, ◌*◌, ◌-◌, ◌%◌, ◌^◌, Bool, false, not, ◌&&◌, ◌||◌, Option, none, some, List, [],
  ◌∷◌, leb, ltb, ◌==◌, if◌then◌else◌, ◌>>=◌, is_some,
}
use mathlib.Core.Path.{ap₂}
use continuity_receipt.Base.{sym, ◌∙◌, ◌≤◌, ◌≡◌, arith}
use continuity_receipt.Value.{Value, str}
use continuity_receipt.Value.Number.{codes, is_digit}

-- A `datetime` in UTC.
pub record DateTime : Type 0 where
  pub year : ℕ
  pub month : ℕ
  pub day : ℕ
  pub hour : ℕ
  pub minute : ℕ
  pub second : ℕ
  pub microsecond : ℕ

-- `[0-9]{n}`: the number that the next `n` digits spell, and the rest of the text.
read_exactly : ℕ → ℕ → List ℕ → Option (ℕ × List ℕ)
read_exactly zero acc s = some (acc, s)
read_exactly (suc n) acc [] = none
read_exactly (suc n) acc (c ∷ s) =
    let rest = read_exactly n (acc * 10 + (c - b'0')) s in if is_digit c then rest else none

read_char : ℕ → List ℕ → Option (List ℕ)
read_char d [] = none
read_char d (c ∷ s) = if c == d then some s else none

-- Up to `n` more digits, each of a tenth of the weight of the one before it.
read_fraction : ℕ → ℕ → ℕ → List ℕ → ℕ × List ℕ
read_fraction zero weight acc s = (acc, s)
read_fraction (suc n) weight acc [] = (acc, [])
read_fraction (suc n) weight acc (c ∷ s) =
    let rest = read_fraction n (weight - 1) (acc + (c - b'0') * 10 ^ weight) s in
    if is_digit c then rest else (acc, c ∷ s)

-- `(\.[0-9]{1,3})?`, as microseconds
read_optional_fraction : List ℕ → Option (ℕ × List ℕ)
unfolding read_fraction
read_optional_fraction [] = some (0, [])
read_optional_fraction (c ∷ []) = if c == b'.' then none else some (0, c ∷ [])
read_optional_fraction (c ∷ d ∷ s) =
    if c == b'.'
    then if is_digit d then some (read_fraction 3 5 0 (d ∷ s)) else none
    else some (0, c ∷ d ∷ s)

-- `_TIMESTAMP_RE.fullmatch`, with the numbers that the groups of digits spell.
read_wire : List ℕ → Option DateTime
unfolding read_exactly read_char read_optional_fraction
read_wire s0 = read_exactly 4 0 s0 >>= λ (year, s1). read_char b'-' s1 >>= λ s2.
    read_exactly 2 0 s2 >>= λ (month, s3). read_char b'-' s3 >>= λ s4.
    read_exactly 2 0 s4 >>= λ (day, s5). read_char b'T' s5 >>= λ s6.
    read_exactly 2 0 s6 >>= λ (hour, s7). read_char b':' s7 >>= λ s8.
    read_exactly 2 0 s8 >>= λ (minute, s9). read_char b':' s9 >>= λ s10.
    read_exactly 2 0 s10 >>= λ (second, s11). read_optional_fraction s11 >>= λ (micro, s12).
    elim s12 [
      | c ∷ [] ↦
          if c == b'Z'
          then some (record {
            year = year;
            month = month;
            day = day;
            hour = hour;
            minute = minute;
            second = second;
            microsecond = micro;
          })
          else none
      | _ ↦ none
    ]

unfoldable pub is_leap : ℕ → Bool
is_leap y = y % 4 == 0 && (not (y % 100 == 0) || y % 400 == 0)

unfoldable pub days_in_month : ℕ → ℕ → ℕ
unfolding is_leap
days_in_month y m =
    if m == 2
    then if is_leap y then 29 else 28
    else if m == 4 || m == 6 || m == 9 || m == 11
    then 30
    else 31

-- The ranges that `datetime` enforces.
unfoldable pub in_calendar : DateTime → Bool
unfolding days_in_month
in_calendar t =
    leb 1 t.year
    && leb 1 t.month
    && leb t.month 12
    && leb 1 t.day
    && leb t.day (days_in_month t.year t.month)
    && leb t.hour 23
    && leb t.minute 59
    && leb t.second 59

-- `parse_timestamp` on the spellings that the pattern admits; `none` is its ValueError.
unfoldable pub parse_timestamp : List ℕ → Option DateTime
unfolding read_wire in_calendar
parse_timestamp s = read_wire s >>= λ t. if in_calendar t then some t else none

-- One number for the seven fields: two instants in UTC compare as their fields do, in order.
unfoldable pub instant : DateTime → ℕ
instant t =
    (((((t.year * 13 + t.month) * 32 + t.day) * 24 + t.hour) * 60 + t.minute) * 60 + t.second)
      * 1000000
    + t.microsecond

-- The instant of a value that `validate_timestamp` accepts.
unfoldable pub timestamp : Value → Option ℕ
unfolding parse_timestamp instant
timestamp (str s) = parse_timestamp (codes s) >>= λ t. some (instant t)
timestamp _ = none

unfoldable pub validate_timestamp : Value → Bool
unfolding timestamp
validate_timestamp v = is_some (timestamp v)

abbrev pub both : (ℕ → ℕ → Bool) → Option ℕ → Option ℕ → Bool
both test (some a) (some b) = test a b
both test _ _ = false

-- Both are timestamps, and their instants pass the test.
unfoldable pub both_stamps : (ℕ → ℕ → Bool) → Value → Value → Bool
unfolding timestamp
both_stamps test v w = both test (timestamp v) (timestamp w)

-- Both are timestamps, and the first is before the second.
unfoldable pub is_before : Value → Value → Bool
unfolding both_stamps
is_before = both_stamps (λ a b. ltb a b)

unfoldable pub is_at_or_before : Value → Value → Bool
unfolding both_stamps
is_at_or_before = both_stamps (λ a b. leb a b)

-- `v` is not before `w`, where both are timestamps.
abbrev pub NotBefore : Value → Value → Type 0
NotBefore v w = (a b : ℕ) → timestamp v ≡ some a → timestamp w ≡ some b → b ≤ a

at_least : (a b : ℕ) → ltb a b ≡ false → b ≤ a
at_least a b h = ground arith

pub NotBefore-is_before : (v w : Value) → is_before v w ≡ false → NotBefore v w
unfolding is_before
NotBefore-is_before v w h a b ea eb =
    at_least a b (sym (ap₂ (λ x y. both (λ m n. ltb m n) x y) ea eb) ∙ h)
