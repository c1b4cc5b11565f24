-- ===== src/Connectors/Http/Collected.antt =====
-- connectors/zerodha.py over connectors/zerodha_http.py: the adapter with its transport.
use portfolio_manager.Base.Exec.{Exec, Returns}
use portfolio_manager.Application.{
  AuthenticationStatus, Bytes, authentication_state_post_init, capability_eq,
}
use portfolio_manager.Application.Collection.{CollectionRequest}
use portfolio_manager.Base.{
  List, Option, Text, arith, distinct, false, is_empty, matches_digest, none, ok, refl, some, true,
  ℕ, ◌<◌, ◌≡◌,
}
use portfolio_manager.Connectors.Http.{KiteSession, Response}
use portfolio_manager.Connectors.Http.Contract.{IsGoodResponse}
use portfolio_manager.Connectors.Http.Fetch.{IsUtc, Raises, fetch-IsGoodFetch}
use portfolio_manager.Connectors.Http.Transport.{
  Header, authentication_state, httpx_kite_transport, now, request,
}
use portfolio_manager.Connectors.Zerodha.{collect}
use portfolio_manager.Connectors.Zerodha.Returns.{Answers, IsAware, collect-Returns}
use portfolio_manager.Domain.Temporal.{Datetime, not_after, utc}
use portfolio_manager.Domain.Temporal.Laws.{as_utc-utc}

module _ (unicode_decimal : ℕ → Option ℕ) {S : Type 0} (wall_clock : Exec S Datetime)
    (stream : Text → List Header → Exec S Response) (session : KiteSession)
    (reads : (s : S) → Raises (λ (d : Datetime). Unit {0}) (now wall_clock s).0)
    (answers : (path : Text) (fields : List Header) (s : S)
      → IsGoodResponse unicode_decimal (stream path fields s).0) where
  authentication_state-ready :
      (token : Text) (until : ℕ) (at : Datetime) (s s1 : S)
      → session.access_token ≡ some token
      → session.expires_at ≡ some (utc until)
      → now wall_clock s ≡ (ok at, s1)
      → at.wall < until
      → authentication_state unicode_decimal wall_clock stream session s ≡ (
        ok (record {
          status = AuthenticationStatus.ready;
          reason_code = none;
          expires_at = some (utc until);
        }),
        s1,
      )
  unfolding authentication_state authentication_state_post_init
  authentication_state-ready token until at s s1 logged_in expires told early =
      let in_time : not_after (utc until) at ≡ false = ground arith in
      rw (logged_in, expires, told, in_time, as_utc-utc until "expires_at") refl

  -- The adapter over the HTTP transport: where the digest is 64 hexadecimal digits, the adapter's
  -- clock gives an aware time, the transport's gives one or raises a `ConnectorError`, the client's
  -- answers are an `IsGoodResponse`, and the session has a token and expires, in UTC, after the time
  -- that the transport reads first, a collection for a set of at least one capability returns, with
  -- one outcome for each in the order of their names, and the outcomes tell which artifacts it holds.
  pub collect-httpx_kite_transport :
      (sha256_hex : Bytes → Text)
      → ((b : Bytes) → matches_digest (sha256_hex b) ≡ true)
      → (clock : Exec S Datetime) → ((s : S) → Returns IsAware (clock s))
      → (request : CollectionRequest) → is_empty request.capabilities ≡ false
      → distinct capability_eq request.capabilities ≡ true
      → (token : Text) (until : ℕ) (at : Datetime) (s s1 : S) → session.access_token ≡ some token
      → session.expires_at ≡ some (utc until)
      → now wall_clock s ≡ (ok at, s1)
      → at.wall < until
      → Returns (Answers request) (
          collect sha256_hex
            (httpx_kite_transport unicode_decimal wall_clock stream session)
            clock
            request
            s)
  collect-httpx_kite_transport sha256_hex hexdigest clock ticks request some_capability each_once
        token until at s s1 logged_in expires told early =
      let in_utc : IsUtc session.expires_at = rw expires (until, refl) in
      collect-Returns sha256_hex hexdigest
        (httpx_kite_transport unicode_decimal wall_clock stream session)
        (λ e w.
          fetch-IsGoodFetch unicode_decimal wall_clock stream session in_utc reads answers e w)
        clock ticks request some_capability each_once _ s s1
        (authentication_state-ready token until at s s1 logged_in expires told early) refl
