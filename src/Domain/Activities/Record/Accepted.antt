-- ===== src/Domain/Activities/Record/Accepted.antt =====
-- domain/activities.py: the activities that `__post_init__` accepts, told without the code's tests.
use portfolio_manager.Domain.Activities.{ActivityKind, ActivityLeg}
use portfolio_manager.Base.{
  List, [], arith, false, none, ok, ◌↔◌, ◌∷◌, ◌≡◌, Option, refl, some, ◌≢◌, ◌≤◌, is_empty,
}
use portfolio_manager.Domain.Activities.Record.{Activity, validate_leg_shape, activity_post_init}
use portfolio_manager.Domain.Ownership.{Date}
use portfolio_manager.Domain.Ownership.Instruments.{ends_before, is_id}
use portfolio_manager.Domain.Temporal.{as_utc, Datetime, max_wall, utc}
use portfolio_manager.Domain.Temporal.Laws.{
  InRangeAt, IsInstant, as_utc-accepts, as_utc-IsInstant, as_utc_idempotent,
}
use mathlib.Core.Path.{subst}
use portfolio_manager.Domain.Activities.Record.Kinds.{
  LegsOf, MetadataOf, validate_leg_shape_iff, LegsOf-nil,
}
use portfolio_manager.Domain.Ownership.Instruments.Accepted.{is_id_iff, not_self-is_id}
use portfolio_manager.Persistence.Schema.Models.{metadata}

-- What `__post_init__` promises of an activity that it accepts.
pub record IsAcceptable (a : Activity) : Type 0 where
  pub legs : LegsOf a.kind a.legs
  pub metadata : MetadataOf a.kind a
  pub not_self : a.supersedes_id ≢ some a.id
  pub dates :
      (traded settled : Date)
      → a.trade_date ≡ some traded
      → a.settlement_date ≡ some settled
      → traded ≤ settled
  pub effective : InRangeAt a.effective_at.wall a.effective_at.tzinfo
  pub ingested : InRangeAt a.ingested_at.wall a.ingested_at.tzinfo

ends_before_iff :
    (o p : Option Date)
    → (ends_before o p ≡ false) ↔ ((a b : Date) → o ≡ some a → p ≡ some b → a ≤ b)
ends_before_iff none p = (λ h a b x y. cc, λ h. refl)
ends_before_iff (some a) none = (λ h x y e f. cc, λ h. refl)
ends_before_iff (some a) (some b) =
    (λ h x y e f. ground arith, λ h. ground (arith, h a b refl refl))

activity_post_init-inv :
    (a a' : Activity)
    → activity_post_init a ≡ ok a'
    → (is_id a.supersedes_id a.id ≡ false)
      × (ends_before a.trade_date a.settlement_date ≡ false)
      × (as_utc a.effective_at "effective_at" ≡ ok a'.effective_at)
      × (as_utc a.ingested_at "ingested_at" ≡ ok a'.ingested_at)
      × (validate_leg_shape a' ≡ ok tt)
      × (a' ≡ record a { effective_at = a'.effective_at; ingested_at = a'.ingested_at })
unfolding activity_post_init
activity_post_init-inv a a' h = ground arith

legs-ne-nil : (a : Activity) → LegsOf a.kind a.legs → is_empty a.legs ≡ false
legs-ne-nil a h = go a.legs h
  where
    go : (legs : List ActivityLeg) → LegsOf a.kind legs → is_empty legs ≡ false
    go [] h = absurd (LegsOf-nil a.kind h)
    go (l ∷ legs) h = refl

-- The metadata does not depend on the timestamps.
MetadataOf-times :
    (k : ActivityKind) (a : Activity) (e i : Datetime)
    → MetadataOf k (record a { effective_at = e; ingested_at = i }) ≡ MetadataOf k a
MetadataOf-times ActivityKind.transfer a e i = refl
MetadataOf-times ActivityKind.corporate_action a e i = refl
MetadataOf-times _ a e i = refl

-- An activity whose timestamps are aware is accepted when it is `IsAcceptable`, and the result has
-- its fields, with the two timestamps in UTC.
activity_post_init_of :
    (a : Activity) (e i : Datetime)
    → IsAcceptable a
    → as_utc a.effective_at "effective_at" ≡ ok e
    → as_utc a.ingested_at "ingested_at" ≡ ok i
    → activity_post_init a ≡ ok (record a { effective_at = e; ingested_at = i })
unfolding activity_post_init
activity_post_init_of a e i v ee ei = rw (
  legs-ne-nil a v.legs,
  not_self-is_id a.supersedes_id a.id v.not_self,
  (ends_before_iff a.trade_date a.settlement_date).1 v.dates,
  ee,
  ei,
  (validate_leg_shape_iff (record a { effective_at = e; ingested_at = i })).1
      (v.legs, rw MetadataOf-times v.metadata),
)

IsAcceptable-of :
    (a a' : Activity)
    → a.effective_at.wall ≤ max_wall
    → a.ingested_at.wall ≤ max_wall
    → activity_post_init a ≡ ok a'
    → IsAcceptable a
IsAcceptable-of a a' he hi h =
    let (self, dates, ee, ei, shape, e) = activity_post_init-inv a a' h in
    let (legs, metadata) =
      (validate_leg_shape_iff
          (record a { effective_at = a'.effective_at; ingested_at = a'.ingested_at })).0
        (subst (λ (b : Activity). validate_leg_shape b ≡ ok tt) e shape) in
    record {
      legs = legs;
      metadata = rw MetadataOf-times at metadata;
      not_self = λ same. cc (self, (is_id_iff a.supersedes_id a.id).1 same);
      dates = (ends_before_iff a.trade_date a.settlement_date).0 dates;
      effective = (as_utc-accepts a.effective_at "effective_at" he).0 (a'.effective_at, ee);
      ingested = (as_utc-accepts a.ingested_at "ingested_at" hi).0 (a'.ingested_at, ei);
    }

-- For timestamps up to the year 9999, `Activity(…)` is accepted exactly when it is `IsAcceptable`:
-- the legs and the metadata are those of its kind, it does not supersede itself, it does not settle
-- before it is traded, and both timestamps are aware, at an instant in the years 1 to 9999 in UTC.
pub activity-accepted :
    (a : Activity)
    → a.effective_at.wall ≤ max_wall
    → a.ingested_at.wall ≤ max_wall
    → ((a' : Activity) × (activity_post_init a ≡ ok a')) ↔ IsAcceptable a
activity-accepted a he hi = (
  λ (a', h). IsAcceptable-of a a' he hi h,
  λ v.
      let (e, ee) = (as_utc-accepts a.effective_at "effective_at" he).1 v.effective in
      let (i, ei) = (as_utc-accepts a.ingested_at "ingested_at" hi).1 v.ingested in
      (record a { effective_at = e; ingested_at = i }, activity_post_init_of a e i v ee ei),
)

-- An accepted activity has the fields that were given, with both timestamps in UTC at the same
-- instants; put together again as it is, it is accepted unchanged.
pub activity-normal :
    (a a' : Activity)
    → activity_post_init a ≡ ok a'
    → (a' ≡ record a {
      effective_at = utc a'.effective_at.wall;
      ingested_at = utc a'.ingested_at.wall;
    })
      × IsInstant a.effective_at a'.effective_at.wall
      × IsInstant a.ingested_at a'.ingested_at.wall
      × (activity_post_init a' ≡ ok a')
unfolding activity_post_init
activity-normal a a' h =
    let (self, dates, ee, ei, shape, e) = activity_post_init-inv a a' h in
    let (ue, instant) = as_utc-IsInstant a.effective_at "effective_at" a'.effective_at ee in
    let (ui, instant') = as_utc-IsInstant a.ingested_at "ingested_at" a'.ingested_at ei in
    (
      cc,
      instant,
      instant',
      ground (
        arith,
        as_utc_idempotent a.effective_at "effective_at" "effective_at" a'.effective_at ee,
        as_utc_idempotent a.ingested_at "ingested_at" "ingested_at" a'.ingested_at ei,
      ),
    )
