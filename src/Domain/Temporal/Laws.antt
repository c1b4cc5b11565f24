-- ===== src/Domain/Temporal/Laws.antt =====
-- domain/temporal.py: what `as_utc` and `TimeRange` promise.
use portfolio_manager.Base.{
  String, neg_part, negsuc, ok, pos, pos_part, ℕ, ℤ, ◌+◌, ◌≡◌, arith, refl, ◌↔◌, ◌≤◌, suc, ◌-◌,
}
use portfolio_manager.Domain.Temporal.{
  Datetime, TzInfo, no_offset, no_tzinfo, utc, utc_offset, as_utc, as_utc_of, astimezone_utc,
  max_wall, TimeRange, time_range_post_init,
}

-- The instant of an aware timestamp: `wall - offset`, with both sides of the difference kept.
abbrev pub IsInstant : Datetime → ℕ → Type 0
IsInstant d t = (z : ℤ) × (d.tzinfo ≡ utc_offset z) × (t + pos_part z ≡ d.wall + neg_part z)

as_utc_of-IsInstant :
    (z : TzInfo) (w : ℕ) (name : String) (u : Datetime)
    → as_utc_of z w name ≡ ok u
    → (u ≡ utc u.wall) × IsInstant (record { wall = w; tzinfo = z }) u.wall
unfolding astimezone_utc
as_utc_of-IsInstant no_tzinfo w name u h = cc
as_utc_of-IsInstant no_offset w name u h = cc
as_utc_of-IsInstant (utc_offset (pos n)) w name u h = (ground arith, (pos n, refl, ground arith))
as_utc_of-IsInstant (utc_offset (negsuc n)) w name u h =
    (ground arith, (negsuc n, refl, ground arith))

-- A timestamp that `as_utc` accepts is aware; the result is in UTC and names the same instant.
pub as_utc-IsInstant :
    (d : Datetime) (name : String) (u : Datetime)
    → as_utc d name ≡ ok u
    → (u ≡ utc u.wall) × IsInstant d u.wall
unfolding as_utc
as_utc-IsInstant d name u h = as_utc_of-IsInstant d.tzinfo d.wall name u h

-- In UTC already: `as_utc` changes nothing.
pub as_utc-utc : (w : ℕ) (name : String) → as_utc (utc w) name ≡ ok (utc w)
unfolding as_utc
as_utc-utc w name = ground arith

-- Normalising twice is normalising once.
pub as_utc_idempotent :
    (d : Datetime) (name name' : String) (u : Datetime)
    → as_utc d name ≡ ok u
    → as_utc u name' ≡ ok u
as_utc_idempotent d name name' u h = rw (as_utc-IsInstant d name u h).0 (as_utc-utc u.wall name')

-- The instant of an aware timestamp lies in the years 1 to 9999.
abbrev pub InRangeAt : ℕ → TzInfo → Type 0
InRangeAt w no_tzinfo = ⊥
InRangeAt w no_offset = ⊥
InRangeAt w (utc_offset z) =
    (pos_part z ≤ w + neg_part z) × (w + neg_part z ≤ max_wall + pos_part z)

accepts_of :
    (z : TzInfo) (w : ℕ) (name : String)
    → w ≤ max_wall
    → ((u : Datetime) × (as_utc_of z w name ≡ ok u)) ↔ InRangeAt w z
unfolding astimezone_utc
accepts_of no_tzinfo w name h = (λ (u, e). cc, λ b. absurd b)
accepts_of no_offset w name h = (λ (u, e). cc, λ b. absurd b)
accepts_of (utc_offset (pos n)) w name h =
    (λ (u, e). ground arith, λ b. (utc (w - n), ground arith))
accepts_of (utc_offset (negsuc n)) w name h =
    (λ (u, e). ground arith, λ b. (utc (w + suc n), ground arith))

-- Of the timestamps up to the year 9999, `as_utc` accepts exactly the aware ones whose instant in UTC
-- lies in the years 1 to 9999.
pub as_utc-accepts :
    (d : Datetime) (name : String)
    → d.wall ≤ max_wall
    → ((u : Datetime) × (as_utc d name ≡ ok u)) ↔ InRangeAt d.wall d.tzinfo
unfolding as_utc
as_utc-accepts d name h = accepts_of d.tzinfo d.wall name h

time_range_post_init-inv :
    (r r' : TimeRange)
    → time_range_post_init r ≡ ok r'
    → (as_utc r.start "range start" ≡ ok r'.start)
      × (as_utc r.end "range end" ≡ ok r'.end)
      × (r'.start.wall ≤ r'.end.wall)
unfolding time_range_post_init
time_range_post_init-inv r r' h = ground arith

-- A range that is accepted has both ends in UTC, at the instants that were given and in order,
-- and is accepted again as it is.
pub time_range-IsValid :
    (r r' : TimeRange)
    → time_range_post_init r ≡ ok r'
    → IsInstant r.start r'.start.wall
      × IsInstant r.end r'.end.wall
      × (r'.start.wall ≤ r'.end.wall)
      × (time_range_post_init r' ≡ ok r')
unfolding time_range_post_init
time_range-IsValid r r' h =
    let (es, ee, le) = time_range_post_init-inv r r' h in
    (
      (as_utc-IsInstant r.start _ r'.start es).1,
      (as_utc-IsInstant r.end _ r'.end ee).1,
      le,
      ground (
        arith,
        as_utc_idempotent r.start "range start" "range start" r'.start es,
        as_utc_idempotent r.end "range end" "range end" r'.end ee,
      ),
    )
