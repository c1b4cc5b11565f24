-- ===== src/Connectors/Auth/Expiry.antt =====
-- connectors/zerodha_auth.py: when a session expires. The zone database is not modelled: its offsets for
-- Asia/Kolkata are the parameters `offset_at_utc`, at a wall time in UTC, and `offset_at_wall`, at a
-- local one.
-- A day and six hours, in microseconds.
use portfolio_manager.Base.{
  Result, err, if◌then◌else◌, ltb, negsuc, ok, overflow_error, pos, raise_if, suc, ℕ, ℤ, ◌%◌, ◌*◌,
  ◌+◌, ◌-◌, ◌/◌, ◌<◌, ◌>>=◌, ◌>>◌, ◌≡◌, ◌≤◌, arith, refl,
}
use portfolio_manager.Domain.Temporal.{Datetime, astimezone_utc, max_wall, utc}

abbrev pub a_day : ℕ
a_day = 86400000000

abbrev pub six_hours : ℕ
six_hours = 21600000000

-- The wall time at an offset, of a wall time in UTC.
unfoldable pub local_wall : ℕ → ℤ → Result ℕ
local_wall w (pos n) = if ltb max_wall (w + n) then err overflow_error else ok (w + n)
local_wall w (negsuc n) = if ltb w (suc n) then err overflow_error else ok (w - suc n)

module _ (offset_at_utc offset_at_wall : ℕ → ℤ) where
  -- Six o'clock of the next day in Kolkata.
  unfoldable pub session_expiry : Datetime → Result Datetime
  session_expiry observed_at = do
    local ← local_wall observed_at.wall (offset_at_utc observed_at.wall)
    let morning = (local / a_day + 1) * a_day + six_hours
    raise_if (ltb max_wall morning) overflow_error
    astimezone_utc morning (offset_at_wall morning)

-- India keeps one offset, five and a half hours east of UTC.
abbrev pub half_past_five : ℕ → ℤ
half_past_five w = pos 19800000000

-- Six o'clock of the day after the local time `x`.
abbrev morning_after : ℕ → ℕ
morning_after x = (x / a_day + 1) * a_day + six_hours

session_expiry-utc :
    (w : ℕ) (u : Datetime)
    → session_expiry half_past_five half_past_five (utc w) ≡ ok u
    → u ≡ utc (morning_after (w + 19800000000) - 19800000000)
unfolding session_expiry local_wall astimezone_utc
session_expiry-utc w u h = ground arith

morning_after_bounds :
    (x : ℕ) → (x + six_hours < morning_after x) × (morning_after x ≤ x + (a_day + six_hours))
morning_after_bounds x = (omega arith, omega arith)

morning_after-mod : (x : ℕ) → morning_after x % a_day ≡ six_hours
morning_after-mod x = omega arith

-- At India's offset, a session that is observed in UTC expires in UTC, more than six and at most
-- thirty hours later, when it is six o'clock in the morning there.
pub session_expiry_bounds :
    (w : ℕ) (u : Datetime)
    → session_expiry half_past_five half_past_five (utc w) ≡ ok u
    → (u ≡ utc u.wall)
      × (w + six_hours < u.wall)
      × (u.wall ≤ w + (a_day + six_hours))
      × ((u.wall + 19800000000) % a_day ≡ six_hours)
session_expiry_bounds w u h =
    let at = session_expiry-utc w u h in
    let (after, within_a_day) = morning_after_bounds (w + 19800000000) in
    let back : u.wall + 19800000000 ≡ morning_after (w + 19800000000) = rw at (omega arith) in
    (rw at refl, omega arith, omega arith, rw back (morning_after-mod (w + 19800000000)))
