-- ===== src/Tests/Values.antt =====
-- The values of the domain and of the port, put together and normalised.
use portfolio_manager.Application.Collection.{
  issue_eq, CapabilityOutcome, OutcomeStatus, capability_outcome_post_init, is_succeeded,
}
use portfolio_manager.Domain.Activities.{
  cash_leg, ActivityKind, CashLegRole, FeeCategory, cash_role_eq,
}
use portfolio_manager.Application.{Capability}
use portfolio_manager.Application.Laws.{capability_outcome_iff}
use portfolio_manager.Base.{
  [], arith, codes, contains, distinct, is_empty, negsuc, none, ok, pos, refl, set_of, some, true,
  ◌↔◌, ◌∷◌, ◌≡◌, ◌≤◌,
}
use portfolio_manager.Domain.Activities.Record.{
  Activity, activity_post_init, cash_legs_of, has_role, instrument_legs_of, validate_leg_shape,
}
use portfolio_manager.Domain.Activities.Record.Accepted.{
  IsAcceptable, activity-accepted, activity-normal,
}
use portfolio_manager.Domain.Numeric.{finite}
use portfolio_manager.Domain.Temporal.{
  Datetime, TimeRange, as_utc, astimezone_utc, time_range_post_init, utc, utc_offset,
}
use portfolio_manager.Domain.Temporal.Laws.{IsInstant, time_range-IsValid}

-- Noon of 2024-01-02 in Kolkata, five and a half hours east of UTC.
abbrev noon_kolkata : Datetime
noon_kolkata = record { wall = 63839793600000000; tzinfo = utc_offset (pos 19800000000) }

abbrev in_utc : Datetime
in_utc = utc 63839773800000000

abbrev fee_activity : Activity
fee_activity = record {
  id = record { value = 7 };
  tenant_id = record { value = 1 };
  broker_account_id = record { value = 2 };
  source_record_id = record { value = 3 };
  kind = ActivityKind.fee;
  legs =
      cash_leg (record {
        money = record {
          amount = finite true 1500 (negsuc 1);
          currency = record { code = codes "INR" };
        };
        role = CashLegRole.fee;
        fee_category = some FeeCategory.brokerage;
        tax_category = none;
        tax_jurisdiction = none;
        source_label = none;
      })
      ∷ [];
  effective_at = noon_kolkata;
  ingested_at = noon_kolkata;
  trade_date = some 738887;
  settlement_date = some 738888;
  supersedes_id = some (record { value = 6 });
  transfer_id = none;
  transfer_direction = none;
  transfer_method = none;
  corporate_action_type = none;
}

activity-accepted_example :
    ((a' : Activity) × (activity_post_init fee_activity ≡ ok a')) ↔ IsAcceptable fee_activity
activity-accepted_example = activity-accepted fee_activity (omega arith) (omega arith)

fee_activity-normal :
    activity_post_init fee_activity
    ≡ ok (record fee_activity { effective_at = in_utc; ingested_at = in_utc })
unfolding activity_post_init as_utc astimezone_utc validate_leg_shape has_role contains set_of
    cash_legs_of instrument_legs_of cash_role_eq
fee_activity-normal = refl

activity-normal_example :
    (record fee_activity { effective_at = in_utc; ingested_at = in_utc }
      ≡ record fee_activity { effective_at = utc in_utc.wall; ingested_at = utc in_utc.wall })
    × IsInstant noon_kolkata in_utc.wall
    × IsInstant noon_kolkata in_utc.wall
    × (activity_post_init (record fee_activity { effective_at = in_utc; ingested_at = in_utc })
        ≡ ok (record fee_activity { effective_at = in_utc; ingested_at = in_utc }))
activity-normal_example =
    activity-normal fee_activity
      (record fee_activity { effective_at = in_utc; ingested_at = in_utc }) fee_activity-normal

noon-as_utc : as_utc noon_kolkata "noon" ≡ ok in_utc
unfolding as_utc astimezone_utc
noon-as_utc = refl

abbrev an_hour : TimeRange
an_hour = record {
  start = noon_kolkata;
  end = record { wall = 63839797200000000; tzinfo = utc_offset (pos 19800000000) };
}

abbrev an_hour_utc : TimeRange
an_hour_utc = record { start = in_utc; end = utc 63839777400000000 }

an_hour-accepted : time_range_post_init an_hour ≡ ok an_hour_utc
unfolding time_range_post_init as_utc astimezone_utc
an_hour-accepted = refl

time_range-IsValid_example :
    IsInstant an_hour.start an_hour_utc.start.wall
    × IsInstant an_hour.end an_hour_utc.end.wall
    × (an_hour_utc.start.wall ≤ an_hour_utc.end.wall)
    × (time_range_post_init an_hour_utc ≡ ok an_hour_utc)
time_range-IsValid_example = time_range-IsValid an_hour an_hour_utc an_hour-accepted

abbrev partial_outcome : CapabilityOutcome
partial_outcome = record {
  capability = Capability.activities;
  status = OutcomeStatus.partial;
  issues = record { code = codes "session.expired" } ∷ [];
}

capability_outcome_iff_example :
    (capability_outcome_post_init partial_outcome ≡ ok partial_outcome) ↔ (
      (is_succeeded partial_outcome.status ≡ is_empty partial_outcome.issues)
      × (distinct issue_eq partial_outcome.issues ≡ true))
capability_outcome_iff_example = capability_outcome_iff partial_outcome
