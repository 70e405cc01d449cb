-- ===== src/Checkpoint/Time.antt =====
-- `_time` of continuity_receipt/receiver_checkpoint.py, with the seconds that the difference of two
-- `datetime`s counts.
use continuity_receipt.Base.{
  ℕ, zero, suc, ◌+◌, ◌*◌, ◌-◌, ◌/◌, Option, none, some, length, ◌==◌, if◌then◌else◌, ◌>>=◌,
}
use continuity_receipt.Value.{Value, str}
use continuity_receipt.Value.Number.{codes}
use continuity_receipt.Records.Timestamp.{DateTime, days_in_month, parse_timestamp}

-- The days of a year before the month `suc m`.
days_before : ℕ → ℕ → ℕ
unfolding days_in_month
days_before y zero = 0
days_before y (suc m) = days_before y m + days_in_month y (suc m)

-- The days from the first of January of the year 1.
ordinal : DateTime → ℕ
unfolding days_before
ordinal t =
    let y = t.year - 1 in
    ((y * 365 + y / 4 + y / 400) - y / 100) + days_before t.year (t.month - 1) + t.day

unfoldable pub seconds : DateTime → ℕ
unfolding ordinal
seconds t = ((ordinal t * 24 + t.hour) * 60 + t.minute) * 60 + t.second

-- `_time`: the pattern has no fraction of a second, so a text has 20 characters.
unfoldable pub time : Value → Option ℕ
unfolding seconds parse_timestamp
time (str s) =
    if length (codes s) == 20 then (parse_timestamp (codes s) >>= λ t. some (seconds t)) else none
time _ = none
