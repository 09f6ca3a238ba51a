-- ===== src/Instant.antt =====
-- `datetime` values. An instant is a number of microseconds since 0001-01-01T00:00:00 UTC, the
-- least value of the type; `end_of_time` is one past 9999-12-31T23:59:59.999999, its greatest.
-- An aware `datetime` is the clock face that it shows and its distance from UTC.
use comply_roll.Common.{ℕ, ◌+◌, ◌-◌, ◌*◌, ◌<◌, ◌≡◌, arith, ltb, if◌then◌else◌}
use comply_roll.Errors.{Result, ok, err, overflow_error}

abbrev pub day : ℕ
day = 86400000000

-- `datetime.max.toordinal()` is 3652059.
abbrev pub end_of_time : ℕ
end_of_time = 3652059 * day

-- `utcoffset()`: how far the clock face is ahead of UTC or behind it.
pub data Offset : Type 0 where
  ahead behind : ℕ → Offset

pub record Datetime : Type 0 where
  pub face : ℕ
  pub offset : Offset

-- `a + timedelta`, with its `OverflowError`.
unfoldable pub advance : ℕ → ℕ → Result ℕ
advance at elapsed =
    if ltb (at + elapsed) end_of_time then ok (at + elapsed) else err overflow_error

-- `value.astimezone(UTC)`: the face less the offset, refused outside the years 1 to 9999.
unfoldable pub to_utc : Datetime → Result ℕ
unfolding advance
to_utc value = elim value.offset [
  | ahead d ↦ if ltb value.face d then err overflow_error else ok (value.face - d)
  | behind d ↦ advance value.face d
]

-- An instant as an aware `datetime` of UTC.
abbrev pub utc : ℕ → Datetime
utc at = record { face = at; offset = ahead 0 }

pub to_utc-utc : (at : ℕ) → to_utc (utc at) ≡ ok at
unfolding to_utc
to_utc-utc at = ground arith

pub advance-eq-ok : (at elapsed : ℕ) {due : ℕ} → advance at elapsed ≡ ok due → due ≡ at + elapsed
unfolding advance
advance-eq-ok at elapsed h = ground arith

pub advance-lt-end_of_time :
    (at elapsed : ℕ) {due : ℕ} → advance at elapsed ≡ ok due → due < end_of_time
unfolding advance
advance-lt-end_of_time at elapsed h = ground arith
