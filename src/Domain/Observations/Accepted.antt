-- ===== src/Domain/Observations/Accepted.antt =====
-- domain/observations.py: the observations that `__post_init__` accepts, told without the code's tests.
use portfolio_manager.Domain.Observations.{Observation, observation_post_init}
use portfolio_manager.Domain.Ownership.Instruments.Accepted.{is_id_iff, not_self-is_id}
use portfolio_manager.Domain.Temporal.Laws.{InRangeAt, IsInstant, as_utc-IsInstant, as_utc-accepts}
use portfolio_manager.Base.{
  ==_iff, >>=-eq-ok, arith, false, not, not-false, ok, raise_if, raise_if-ok, refl, some, sym, true,
  value_error, ℕ, ℤ, ◌↔◌, ◌∙◌, ◌≡◌, ◌≢◌, ◌≤◌,
}
use portfolio_manager.Domain.Ownership.Instruments.{is_id}
use portfolio_manager.Domain.Temporal.{Datetime, as_utc, max_wall, same_time, utc_offset}

-- What `__post_init__` promises of an observation that it accepts.
pub record IsObservation (o : Observation) : Type 0 where
  pub not_self : o.supersedes_id ≢ some o.id
  pub as_of : InRangeAt o.as_of.wall o.as_of.tzinfo
  pub ingested : InRangeAt o.ingested_at.wall o.ingested_at.tzinfo
  pub observed : IsInstant o.as_of o.quality.observed_at.wall

IsInstant-unique : (d : Datetime) (t u : ℕ) → IsInstant d t → IsInstant d u → t ≡ u
IsInstant-unique d t u (z, e, h) (y, f, k) =
    let same : z ≡ y = utc_offset-injective (sym e ∙ f) in omega (arith, h, rw (← same) at k)
  where
    utc_offset-injective : {z y : ℤ} → utc_offset z ≡ utc_offset y → z ≡ y
    utc_offset-injective h = cc

observation_post_init-inv :
    (o o' : Observation)
    → observation_post_init o ≡ ok o'
    → (is_id o.supersedes_id o.id ≡ false)
      × (u : Datetime) × (v : Datetime) × (as_utc o.as_of "as_of" ≡ ok u)
      × (as_utc o.ingested_at "ingested_at" ≡ ok v)
      × (o.quality.observed_at.wall ≡ u.wall)
unfolding observation_post_init
observation_post_init-inv o o' h =
    let (_, a, h1) =
      >>=-eq-ok
        (raise_if (is_id o.supersedes_id o.id) (value_error "observation cannot supersede itself"))
        _ h in
    let (u, b, h2) = >>=-eq-ok (as_utc o.as_of "as_of") _ h1 in
    let (v, c, h3) = >>=-eq-ok (as_utc o.ingested_at "ingested_at") _ h2 in
    let (_, d, _) =
      >>=-eq-ok
        (raise_if (not (same_time o.quality.observed_at u))
          (value_error "quality observed_at must equal observation as_of"))
        _ h3 in
    let same : same_time o.quality.observed_at u ≡ true = not-false _ (raise_if-ok _ _ d) in
    (raise_if-ok _ _ a, u, v, b, c, (==_iff o.quality.observed_at.wall u.wall).0 same)

-- For timestamps up to the year 9999, `Observation(…)` is accepted exactly when it does not supersede
-- itself, both timestamps are aware, at an instant in the years 1 to 9999 in UTC, and the quality was
-- observed at the instant of as_of.
pub observation-accepted :
    (o : Observation)
    → o.as_of.wall ≤ max_wall
    → o.ingested_at.wall ≤ max_wall
    → ((o' : Observation) × (observation_post_init o ≡ ok o')) ↔ IsObservation o
unfolding observation_post_init
observation-accepted o ha hi =
    let as_of = as_utc-accepts o.as_of "as_of" ha in
    let ingested = as_utc-accepts o.ingested_at "ingested_at" hi in
    (
      λ (o', h).
          let (self, u, v, eu, ev, same) = observation_post_init-inv o o' h in
          record {
            not_self = λ e. cc (self, (is_id_iff o.supersedes_id o.id).1 e);
            as_of = as_of.0 (u, eu);
            ingested = ingested.0 (v, ev);
            observed = rw same (as_utc-IsInstant o.as_of "as_of" u eu).1;
          },
      λ a.
          let (u, eu) = as_of.1 a.as_of in
          let (v, ev) = ingested.1 a.ingested in
          let same : o.quality.observed_at.wall ≡ u.wall =
            IsInstant-unique o.as_of _ _ a.observed (as_utc-IsInstant o.as_of "as_of" u eu).1 in
          (
            record o { as_of = u; ingested_at = v },
            rw
                (
                  not_self-is_id o.supersedes_id o.id a.not_self,
                  eu,
                  ev,
                  (==_iff o.quality.observed_at.wall u.wall).1 same,
                )
                refl,
          ),
    )
