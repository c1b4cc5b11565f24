-- ===== src/Tests/Exchange.antt =====
-- connectors/zerodha_auth.py: a request token exchanged with a broker that gives one answer.
use portfolio_manager.Base.Exec.{Exec}
use portfolio_manager.Connectors.Auth.Exchange.{
  raise_for_status, read_bounded, TokenData, compare_digest, exchange, post_token, session_of,
}
use portfolio_manager.Application.{Bytes}
use portfolio_manager.Base.{
  arith, false, not_printable, List, Option, Text, [], all, any, codes, if◌then◌else◌, is_empty,
  is_space, lstrip, none, ok, refl, rstrip, some, strip, ℕ, ◌%◌, ◌+◌, ◌<◌, ◌∷◌, ◌≡◌, ◌≤◌,
}
use portfolio_manager.Connectors.Auth.{KiteApiCredentials, validate_credential}
use portfolio_manager.Connectors.Auth.Exchange.Posted.{Answered}
use portfolio_manager.Connectors.Auth.Exchange.Returns.{exchange-returns}
use portfolio_manager.Connectors.Http.Reading.{whole_body}
use portfolio_manager.Connectors.Auth.Exchange.Session.{Exchanged, exchange-Exchanged}
use portfolio_manager.Connectors.Auth.Expiry.{
  a_day, half_past_five, local_wall, session_expiry, session_expiry_bounds, six_hours,
}
use portfolio_manager.Connectors.Http.{
  KiteSession, Response, kite_session_post_init, read_chunks, validate_secret,
}
use portfolio_manager.Connectors.Http.Transport.{Header, now}
use portfolio_manager.Domain.Temporal.{Datetime, as_utc, astimezone_utc, utc}

abbrev checksum : Text → Text
checksum text = codes "00"

abbrev answer : TokenData
answer = record { api_key = codes "key"; access_token = codes "access" }

-- Stands for pydantic: an answer that is not empty holds `answer`.
abbrev parse : Bytes → Option TokenData
parse content = if is_empty content then none else some answer

abbrev clock : Exec ℕ Datetime
clock n = (ok (utc 63839773800000000), n)

abbrev client : Text → List Header → List Header → Exec ℕ Response
client path fields form n =
    (ok (record { status_code = 200; header = λ name. none; stream = ok (codes "{}") ∷ [] }), n + 1)

abbrev credentials : KiteApiCredentials
credentials = record { api_key = codes "key"; api_secret = codes "secret" }

-- The second of January 2024 at 06:30 in UTC is noon in Kolkata; the session is good until six in
-- the morning there, half past midnight in UTC.
abbrev given : KiteSession
given = record {
  api_key = codes "key";
  access_token = some (codes "access");
  expires_at = some (utc 63839838600000000);
}

exchange-given :
    exchange checksum parse half_past_five half_past_five clock client credentials (codes "token") 0
    ≡ (ok given, 1)
unfolding exchange post_token session_of session_expiry local_wall astimezone_utc compare_digest
    raise_for_status read_bounded read_chunks kite_session_post_init validate_secret
    validate_credential any all strip lstrip rstrip is_space now as_utc
exchange-given = refl

exchange-Exchanged_example :
    Exchanged checksum parse half_past_five half_past_five clock client credentials
      (codes "token")
      given
      0
      1
exchange-Exchanged_example =
    exchange-Exchanged checksum parse half_past_five half_past_five clock client credentials
      (codes "token") given 0 1 exchange-given

expiry-noon :
    session_expiry half_past_five half_past_five (utc 63839773800000000)
    ≡ ok (utc 63839838600000000)
unfolding session_expiry local_wall astimezone_utc
expiry-noon = refl

-- The client's answer is good, and so are the key and the tokens.
client-Answered :
    Answered checksum parse half_past_five half_past_five clock client credentials
      (codes "token")
      0
      1
      (codes "{}")
unfolding whole_body
client-Answered = record {
  response = record { status_code = 200; header = λ name. none; stream = ok (codes "{}") ∷ [] };
  posted = refl;
  not_below = omega arith;
  not_above = omega arith;
  whole = refl;
  fits = omega arith;
}

key-accepted : validate_credential (codes "key") "API key" ≡ ok tt
unfolding validate_credential any all strip lstrip rstrip is_space
key-accepted = refl

token-accepted : validate_credential (codes "token") "request token" ≡ ok tt
unfolding validate_credential any all strip lstrip rstrip is_space
token-accepted = refl

access-printable : not_printable (codes "access") ≡ false
unfolding any all strip lstrip rstrip is_space
access-printable = refl

clock-told : now clock 1 ≡ (ok (utc 63839773800000000), 1)
unfolding now as_utc astimezone_utc
clock-told = refl

exchange-returns_example :
    exchange checksum parse half_past_five half_past_five clock client credentials (codes "token") 0
    ≡ (ok given, 1)
exchange-returns_example =
    exchange-returns checksum parse half_past_five half_past_five clock client credentials
      (codes "token") (codes "{}") answer (utc 63839773800000000) (utc 63839838600000000) 0 1 1
      key-accepted token-accepted client-Answered refl refl access-printable clock-told expiry-noon

session_expiry_bounds_example :
    (utc 63839838600000000 ≡ utc 63839838600000000)
    × (63839773800000000 + six_hours < 63839838600000000)
    × (63839838600000000 ≤ 63839773800000000 + (a_day + six_hours))
    × ((63839838600000000 + 19800000000) % a_day ≡ six_hours)
session_expiry_bounds_example =
    session_expiry_bounds 63839773800000000 (utc 63839838600000000) expiry-noon
