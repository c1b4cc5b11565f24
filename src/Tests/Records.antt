-- ===== src/Tests/Records.antt =====
-- domain/: an option, an observation and an identifier.
use portfolio_manager.Domain.Ownership.{AssetClass, OptionRight}
use portfolio_manager.Domain.Ownership.Instruments.{Instrument, instrument_post_init}
use portfolio_manager.Domain.Observations.{
  Observation, cash_balance, broker_account, observation_post_init,
}
use portfolio_manager.Domain.Numeric.{finite}
use portfolio_manager.Domain.Quality.{Authority, Completeness, SettlementState}
use portfolio_manager.Base.Integer.{is_number_space, lstrip_number, rstrip_number, strip_number}
use portfolio_manager.Base.{
  [], arith, codes, false, none, ok, pos, some, ◌↔◌, ◌≡◌, Option, is_space, refl, ℕ,
}
use portfolio_manager.Domain.Observations.Accepted.{observation-accepted, IsObservation}
use portfolio_manager.Domain.Ownership.Instruments.Accepted.{IsInstrument, instrument_iff}
use portfolio_manager.Domain.Temporal.{utc, utc_offset}
use portfolio_manager.Domain.Identifiers.{TenantId}
use portfolio_manager.Domain.Identifiers.Written.{
  digit_16, digits_16, drop_text, grouped, hex_of, lstrip_braces, parse, rstrip_braces, take_text,
  to_text, uuid_of, without_dashes, without_text,
}
use portfolio_manager.Domain.Identifiers.Written.RoundTrip.{parse-to_text}

abbrev call : Instrument
call = record {
  id = record { value = 1 };
  name = codes "NIFTY call";
  asset_class = AssetClass.option;
  multiplier = some (record { value = finite false 50 (pos 0) });
  underlying_id = some (record { value = 2 });
  expiry = some 20000;
  strike =
      some
        (record { value = finite false 25000 (pos 0); currency = record { code = codes "INR" } });
  option_right = some OptionRight.call;
}

instrument_iff_example : (instrument_post_init call ≡ ok call) ↔ IsInstrument call
instrument_iff_example = instrument_iff call

-- As of a time in Kolkata, with the quality of the same instant in UTC.
abbrev balance : Observation
balance = record {
  id = record { value = 7 };
  tenant_id = record { value = 1 };
  source_record_id = record { value = 3 };
  value = cash_balance (record {
    account_id = broker_account (record { value = 4 });
    balance = record {
      amount = finite false 100 (pos 0);
      currency = record { code = codes "INR" };
    };
  });
  as_of = record { wall = 63000000000000000; tzinfo = utc_offset (pos 19800000000) };
  ingested_at = utc 63000000000000000;
  quality = record {
    authority = Authority.authoritative;
    completeness = Completeness.complete;
    observed_at = utc 62999980200000000;
    data_through = none;
    coverage = none;
    settlement = SettlementState.settled;
    issues = [];
  };
  supersedes_id = some (record { value = 6 });
}

observation-accepted_example :
    ((o : Observation) × (observation_post_init balance ≡ ok o)) ↔ IsObservation balance
observation-accepted_example = observation-accepted balance (omega arith) (omega arith)

abbrev an_id : TenantId
an_id = record { value = 0x123e4567e89b12d3a456426614174000 }

-- No character beyond ASCII is a digit.
abbrev no_decimal : ℕ → Option ℕ
no_decimal c = none

an_id-text : to_text an_id ≡ codes "123e4567-e89b-12d3-a456-426614174000"
unfolding to_text grouped take_text drop_text hex_of
an_id-text = refl

parse-urn : parse no_decimal (codes "urn:uuid:{123E4567-E89B12D3-A456-426614174000}") ≡ ok an_id
unfolding parse uuid_of without_text lstrip_braces rstrip_braces without_dashes digits_16 digit_16
    strip_number lstrip_number rstrip_number is_number_space is_space
parse-urn = refl

parse-to_text_example : parse no_decimal (to_text an_id) ≡ ok an_id
parse-to_text_example = parse-to_text no_decimal an_id (omega arith)
