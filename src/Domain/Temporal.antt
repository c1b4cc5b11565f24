-- ===== src/Domain/Temporal.antt =====
-- domain/temporal.py: timestamps, and their normalisation to UTC.
pub mod Laws
use portfolio_manager.Base.{
  Bool, Result, String, err, if◌then◌else◌, leb, ltb, negsuc, ok, overflow_error, pos, raise_if,
  suc, value_error, ℕ, ℤ, ◌+◌, ◌-◌, ◌<>◌, ◌==◌, ◌>>=◌, ◌>>◌,
}

-- What `value.tzinfo` and `value.utcoffset()` say: no zone, a zone that gives no offset, or an
-- offset in microseconds east of UTC.
pub data TzInfo : Type 0 where
  no_tzinfo no_offset : TzInfo
  utc_offset : ℤ → TzInfo

-- `wall` is the time on the clock, in microseconds since 0001-01-01 00:00.
pub record Datetime : Type 0 where
  pub wall : ℕ
  pub tzinfo : TzInfo

-- `datetime.max`, 9999-12-31 23:59:59.999999
abbrev pub max_wall : ℕ
max_wall = 315537897599999999

abbrev pub utc : ℕ → Datetime
utc w = record { wall = w; tzinfo = utc_offset (pos 0) }

-- `value.astimezone(UTC)`: the offset is taken off, and a time before the year 1 or after the
-- year 9999 is an `OverflowError`.
unfoldable pub astimezone_utc : ℕ → ℤ → Result Datetime
astimezone_utc w (pos n) = if ltb w n then err overflow_error else ok (utc (w - n))
astimezone_utc w (negsuc n) =
    if ltb max_wall (w + suc n) then err overflow_error else ok (utc (w + suc n))

abbrev as_utc_of : TzInfo → ℕ → String → Result Datetime
as_utc_of no_tzinfo w field_name = err (value_error (field_name <> " must be timezone-aware"))
as_utc_of no_offset w field_name = err (value_error (field_name <> " must be timezone-aware"))
as_utc_of (utc_offset z) w field_name = astimezone_utc w z

unfoldable pub as_utc : Datetime → String → Result Datetime
unfolding astimezone_utc
as_utc value field_name = as_utc_of value.tzinfo value.wall field_name

-- `a < b`, `a <= b` and `a == b` of two timestamps that are both in UTC, as `as_utc` gives them.
abbrev pub before : Datetime → Datetime → Bool
before a b = ltb a.wall b.wall

abbrev pub not_after : Datetime → Datetime → Bool
not_after a b = leb a.wall b.wall

abbrev pub same_time : Datetime → Datetime → Bool
same_time a b = a.wall == b.wall

-- `value + timedelta`, for a length of time that is not negative.
unfoldable pub add_micros : Datetime → ℕ → Result Datetime
add_micros d n =
    if ltb max_wall (d.wall + n) then err overflow_error else ok (record d { wall = d.wall + n })

pub record TimeRange : Type 0 where
  pub start : Datetime
  pub end : Datetime

unfoldable pub time_range_post_init : TimeRange → Result TimeRange
time_range_post_init self = do
  start ← as_utc self.start "range start"
  end ← as_utc self.end "range end"
  raise_if (before end start) (value_error "range end cannot precede range start")
  ok (record { start = start; end = end })
