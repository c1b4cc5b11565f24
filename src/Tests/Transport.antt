-- ===== src/Tests/Transport.antt =====
-- connectors/zerodha_http.py: a client that answers from a table of paths.
use mathlib.Core.Option.{some-injective}
use portfolio_manager.Base.Exec.{Exec, Returns}
use portfolio_manager.Connectors.Http.Contract.{IsGoodResponse}
use portfolio_manager.Connectors.Http.Fetch.{made, Raises, fetch-IsGoodFetch}
use portfolio_manager.Connectors.Http.{
  KiteSession, Response, max_bytes, path_of, raise_for_status, read_bounded, read_chunks,
  retry_after, too_large,
}
use portfolio_manager.Application.{authentication_state_post_init, Bytes, Capability, capability_eq}
use portfolio_manager.Base.{
  Bool-cases, List, Option, Text, [], all, codes, err, if◌then◌else◌, inl, inr, is_space, leb,
  length, lstrip, none, ok, pos, refl, rstrip, some, strip, text_eq, timeout_exception, ℕ, ◌+◌, ◌<◌,
  ◌↔◌, ◌∷◌, ◌≡◌, ◌≤◌, false, not_trimmed, arith, contains, distinct, matches_digest, true,
}
use portfolio_manager.Base.Integer.{
  is_number_space, lstrip_number, rstrip_number, strip_number, digit_value, digits_of, int_of,
}
use portfolio_manager.Connectors.Http.Reading.{
  IsWait, read_bounded_complete, read_bounded_sound, retry_after_bounds, whole_body,
}
use portfolio_manager.Connectors.Http.Status.{raise_for_status-passes}
use portfolio_manager.Connectors.Http.Transport.{
  Header, authentication_state, fetch, headers, now, request, httpx_kite_transport,
}
use portfolio_manager.Connectors.Kite.{KiteEndpoint, kite_payload_post_init}
use portfolio_manager.Connectors.Zerodha.Total.{IsGoodFetch}
use portfolio_manager.Domain.Temporal.{Datetime, as_utc, astimezone_utc, utc}
use portfolio_manager.Application.Collection.{CollectionRequest}
use portfolio_manager.Connectors.Http.Collected.{collect-httpx_kite_transport}
use portfolio_manager.Connectors.Zerodha.{collect}
use portfolio_manager.Connectors.Zerodha.Returns.{Answers, IsAware}

abbrev no_digit : ℕ → Option ℕ
no_digit c = none

abbrev clock : Exec ℕ Datetime
clock n = (ok (utc 1000), n)

abbrev session : KiteSession
session = record {
  api_key = codes "key";
  access_token = some (codes "token");
  expires_at = some (utc 2000);
}

abbrev plain : Text → Option Text
plain name = if text_eq name (codes "content-type") then some (codes "text/csv") else none

abbrev two_chunks : Response
two_chunks = record {
  status_code = 200;
  header = plain;
  stream = ok (codes "a,b") ∷ ok (codes ",c") ∷ [];
}

-- Instruments come in two chunks, the client times out at the rest.
abbrev client : Text → List Header → Exec ℕ Response
client path fields n =
    (if text_eq path (codes "/instruments") then ok two_chunks else err timeout_exception, n + 1)

two_chunks-IsGoodResponse : IsGoodResponse no_digit (ok two_chunks)
unfolding retry_after strip lstrip rstrip is_space
two_chunks-IsGoodResponse = ((tt, (tt, tt)), trimmed, (none, refl))
  where
    trimmed : (text : Text) → some (codes "text/csv") ≡ some text → not_trimmed text ≡ false
    trimmed text h = rw (← some-injective (codes "text/csv") text h) refl

client-good :
    (path : Text) (fields : List Header) (n : ℕ) → IsGoodResponse no_digit (client path fields n).0
client-good path fields n = elim (Bool-cases (text_eq path (codes "/instruments"))) [
  | inl same ↦ rw same two_chunks-IsGoodResponse
  | inr other ↦ rw other tt
]

now-Raises : (n : ℕ) → Raises (λ (d : Datetime). Unit {0}) (now clock n).0
unfolding now as_utc astimezone_utc
now-Raises n = made tt

fetch-IsGoodFetch_example :
    IsGoodFetch (fetch no_digit clock client session KiteEndpoint.instruments 0).0
fetch-IsGoodFetch_example =
    fetch-IsGoodFetch no_digit clock client session (2000, refl) now-Raises client-good
      KiteEndpoint.instruments 0

fetch-instruments :
    fetch no_digit clock client session KiteEndpoint.instruments 0
    ≡ (ok (record { body = codes "a,b,c"; media_type = codes "text/csv"; source_at = none }), 1)
unfolding fetch authentication_state now as_utc astimezone_utc authentication_state_post_init
    request headers raise_for_status read_bounded read_chunks max_bytes path_of
    kite_payload_post_init strip lstrip rstrip is_space
fetch-instruments = refl

whole : read_bounded no_digit two_chunks 5 ≡ ok (codes "a,b,c")
unfolding read_bounded read_chunks
whole = refl

read_bounded_sound_example :
    (whole_body two_chunks.stream ≡ some (codes "a,b,c")) × (length (codes "a,b,c") ≤ 5)
read_bounded_sound_example = read_bounded_sound no_digit two_chunks 5 (codes "a,b,c") whole

whole_body-two_chunks : whole_body two_chunks.stream ≡ some (codes "a,b,c")
unfolding whole_body
whole_body-two_chunks = refl

read_bounded_complete_example :
    read_bounded no_digit two_chunks 4
    ≡ (if leb (length (codes "a,b,c")) 4 then ok (codes "a,b,c") else too_large)
read_bounded_complete_example =
    read_bounded_complete no_digit two_chunks 4 (codes "a,b,c") refl whole_body-two_chunks

abbrev busy : Response
busy = record { status_code = 429; header = λ name. some (codes "30"); stream = [] }

busy-waits : retry_after no_digit busy ≡ ok (some (pos 30000000))
unfolding retry_after int_of digits_of digit_value strip_number lstrip_number rstrip_number
    is_number_space is_space all
busy-waits = refl

retry_after_bounds_example : IsWait (pos 30000000)
retry_after_bounds_example = retry_after_bounds no_digit busy (pos 30000000) busy-waits

raise_for_status-passes_example :
    (raise_for_status no_digit busy ≡ ok tt) ↔ ((200 ≤ busy.status_code) × (busy.status_code < 300))
raise_for_status-passes_example = raise_for_status-passes no_digit busy

abbrev digest : Bytes → Text
digest b = codes "0123456789abcdef0123456789abcdef0123456789abcdef0123456789abcdef"

digest-matches : (b : Bytes) → matches_digest (digest b) ≡ true
unfolding all
digest-matches b = refl

clock-Returns : (n : ℕ) → Returns IsAware (clock n)
unfolding as_utc
clock-Returns n = record { value = utc 1000; world = n; ends = refl; good = (utc 1000, refl) }

abbrev of_two : CollectionRequest
of_two = record {
  tenant_id = record { value = 1 };
  connection_id = record { value = 2 };
  capabilities = Capability.instruments ∷ Capability.holdings ∷ [];
  idempotency_key = codes "first";
  account_id = none;
  period = none;
  checkpoint = none;
}

of_two-distinct : distinct capability_eq of_two.capabilities ≡ true
unfolding distinct contains capability_eq
of_two-distinct = refl

now-clock : now clock 0 ≡ (ok (utc 1000), 0)
unfolding now as_utc astimezone_utc
now-clock = refl

collect-httpx_kite_transport_example :
    Returns
      (Answers of_two)
      (collect digest (httpx_kite_transport no_digit clock client session) clock of_two 0)
collect-httpx_kite_transport_example =
    collect-httpx_kite_transport no_digit clock client session now-Raises client-good digest
      digest-matches clock clock-Returns of_two refl of_two-distinct (codes "token") 2000 (utc 1000)
      0 0 refl refl now-clock (omega arith)
