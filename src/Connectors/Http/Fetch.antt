-- ===== src/Connectors/Http/Fetch.antt =====
-- connectors/zerodha_http.py: how `fetch` ends.
use portfolio_manager.Base.Exec.{Exec, continue, lift, pure, ◌>>=◌, ◌>>◌}
use portfolio_manager.Application.{
  require_key, AuthenticationState, AuthenticationStatus, Bytes, authentication_state_post_init,
  is_ready, raise_connector_error,
}
use portfolio_manager.Connectors.Http.Contract.{
  value, caught, Ends, Ends-continue, IsGoodResponse, Ends-raise, raise_for_status-Ends,
  read_bounded-Ends,
}
use portfolio_manager.Base.{
  ConnectorFailureKind, Option, Result, Text, all, codes, connector_error, err, false, matches_key,
  network_error, none, not_trimmed, ok, refl, some, timeout_exception, true, ℕ, ℤ, ◌≡◌, List, Bool,
  if◌then◌else◌, is_space, lstrip, strip, [], ◌∷◌,
}
use portfolio_manager.Connectors.Http.Transport.{
  translate, Header, now, headers, headers_of, media_type_of, request, state_of, catching,
  payload_of, authentication_state, fetch,
}
use portfolio_manager.Connectors.Zerodha.{or_text}
use portfolio_manager.Domain.Temporal.{Datetime, utc, not_after}
use portfolio_manager.Connectors.Http.{
  KiteSession, Response, max_bytes, path_of, raise_for_status, read_bounded,
}
use portfolio_manager.Domain.Temporal.Laws.{as_utc-utc}
use portfolio_manager.Connectors.Kite.{KiteEndpoint, KitePayload, kite_payload_post_init}
use portfolio_manager.Connectors.Zerodha.Total.{IsGoodFetch}
use portfolio_manager.Application.Laws.{raise_connector_error_lem}

-- A result that meets `P`, or a `ConnectorError` with a stable reason code.
pub data Raises {A : Type 0} (P : A → Type 0) : Result A → Type 0 where
  made : {a : A} → P a → Raises P (ok a)
  raised :
      {kind : ConnectorFailureKind} {reason_code : Text} {retry : Option ℤ}
      → matches_key reason_code ≡ true
      → Raises P (err (connector_error kind reason_code retry))

translate-Raises : {A : Type 0} (P : A → Type 0) (r : Result A) → Ends P r → Raises P (translate r)
unfolding raise_connector_error all
translate-Raises P (ok a) (value p) = made p
translate-Raises P (err timeout_exception) h = raised refl
translate-Raises P (err network_error) h = raised refl
translate-Raises P (err (connector_error kind reason_code retry)) (caught c) = raised c
translate-Raises P (err _) (caught c) = absurd c

abbrev IsTrimmed : Bytes × Text → Type 0
IsTrimmed (body, media_type) = not_trimmed media_type ≡ false

abbrev pub IsUtc : Option Datetime → Type 0
IsUtc none = Unit
IsUtc (some d) = (w : ℕ) × (d ≡ utc w)

-- A state that is not ready has a reason with which an error can be raised.
abbrev IsReasoned : AuthenticationState → Type 0
IsReasoned state =
    is_ready state.status ≡ false
    → matches_key (or_text state.reason_code (codes "session.not_ready")) ≡ true

ready-Raises :
    (o : Option Datetime)
    → IsUtc o
    → Raises IsReasoned (
        authentication_state_post_init
          (record { status = AuthenticationStatus.ready; reason_code = none; expires_at = o }))
unfolding authentication_state_post_init
ready-Raises none u = made (λ h. cc)
ready-Raises (some d) (w, same) = rw (same, as_utc-utc) (made (λ h. cc))

missing-Raises : Raises IsReasoned (
    authentication_state_post_init (record {
      status = AuthenticationStatus.action_required;
      reason_code = some (codes "session.missing");
      expires_at = none;
    }))
unfolding authentication_state_post_init require_key all
missing-Raises = made (λ h. refl)

expired-Raises :
    (d : Datetime)
    → IsUtc (some d)
    → Raises IsReasoned (
        authentication_state_post_init (record {
          status = AuthenticationStatus.expired;
          reason_code = some (codes "session.expired");
          expires_at = some d;
        }))
unfolding authentication_state_post_init require_key all
expired-Raises d (w, same) = rw (same, as_utc-utc) (made (λ h. refl))

branch :
    {S A : Type 0} (D : Result A → Type 0) (b : Bool) (m n : Exec S A) (s : S)
    → (b ≡ true → D (m s).0)
    → (b ≡ false → D (n s).0)
    → D ((if b then m else n) s).0
branch D true m n s h k = h refl
branch D false m n s h k = k refl

Raises-continue :
    {S A B : Type 0} (P : A → Type 0) (Q : B → Type 0) (r : Result A) (f : A → Exec S B) (s : S)
    → Raises P r
    → ((a : A) (s1 : S) → P a → Raises Q (f a s1).0)
    → Raises Q (continue r f s).0
Raises-continue P Q (ok a) f s (made p) k = k a s p
Raises-continue P Q (err e) f s (raised c) k = raised c

module _ (unicode_decimal : ℕ → Option ℕ) {S : Type 0} (clock : Exec S Datetime)
    (stream : Text → List Header → Exec S Response) (session : KiteSession)
    (in_utc : IsUtc session.expires_at) (ticks : (s : S) → Raises (λ _. Unit) (now clock s).0)
    (answers : (path : Text) (fields : List Header) (s : S)
      → IsGoodResponse unicode_decimal (stream path fields s).0) where
  state_of-Raises :
      (token : Option Text) (o : Option Datetime) (s : S)
      → IsUtc o
      → Raises IsReasoned (state_of unicode_decimal clock stream session token o s).0
  state_of-Raises none o s u = missing-Raises
  state_of-Raises (some token) none s u = ready-Raises session.expires_at in_utc
  state_of-Raises (some token) (some d) s u =
      Raises-continue (λ _. Unit) IsReasoned (now clock s).0 _ (now clock s).1 (ticks s)
        (λ at s1 _.
          branch (Raises IsReasoned) (not_after d at) _ _ s1 (λ _. expired-Raises d u)
            (λ _. ready-Raises session.expires_at in_utc))

  headers_of-Ends :
      (token : Option Text)
      → Ends (λ _. Unit) (headers_of unicode_decimal clock stream session token)
  unfolding all
  headers_of-Ends none =
      Ends-raise (λ _. Unit) ConnectorFailureKind.authentication (codes "session.missing") refl
  headers_of-Ends (some token) = value tt

  media_type-trimmed :
      (o : Option Text)
      → ((text : Text) → o ≡ some text → not_trimmed text ≡ false)
      → not_trimmed (media_type_of unicode_decimal clock stream session o) ≡ false
  unfolding strip lstrip is_space
  media_type-trimmed none h = refl
  media_type-trimmed (some text) h = h text refl

  -- What is done with a response.
  abbrev received : KiteEndpoint → Response → Exec S (Bytes × Text)
  received endpoint response = do
    lift (raise_for_status unicode_decimal response)
    body ← lift (read_bounded unicode_decimal response (max_bytes endpoint))
    pure (
      body,
      media_type_of unicode_decimal clock stream session (response.header (codes "content-type")),
    )

  received-Ends :
      (endpoint : KiteEndpoint) (r : Result Response) (s : S)
      → IsGoodResponse unicode_decimal r
      → Ends IsTrimmed (continue r (received endpoint) s).0
  received-Ends endpoint (err e) s c = caught c
  received-Ends endpoint (ok response) s (events, trimmed, (after, waits)) =
      Ends-continue (λ _. Unit) IsTrimmed (raise_for_status unicode_decimal response) _ s
        (raise_for_status-Ends unicode_decimal response after waits)
        (λ _ s1 _.
          Ends-continue (λ _. Unit) IsTrimmed
            (read_bounded unicode_decimal response (max_bytes endpoint)) _ s1
            (read_bounded-Ends unicode_decimal response (max_bytes endpoint) events)
            (λ body s2 _.
              value (media_type-trimmed (response.header (codes "content-type")) trimmed)))

  request-Ends :
      (endpoint : KiteEndpoint) (s : S)
      → Ends IsTrimmed (request unicode_decimal clock stream session endpoint s).0
  unfolding request headers
  request-Ends endpoint s =
      Ends-continue (λ _. Unit) IsTrimmed
        (headers_of unicode_decimal clock stream session session.access_token) _ s
        (headers_of-Ends session.access_token)
        (λ fields s1 _. received-Ends endpoint _ _ (answers (path_of endpoint) fields s1))

  payload-good :
      (body : Bytes) (media_type : Text)
      → not_trimmed media_type ≡ false
      → IsGoodFetch (payload_of unicode_decimal clock stream session (body, media_type))
  unfolding kite_payload_post_init raise_connector_error all
  payload-good [] media_type trimmed = refl
  payload-good (b ∷ body) media_type trimmed = rw trimmed (refl, trimmed, tt)

  payload_of-good :
      (r : Result (Bytes × Text)) (s : S)
      → Raises IsTrimmed r
      → IsGoodFetch (continue r (λ x. lift (payload_of unicode_decimal clock stream session x)) s).0
  payload_of-good (ok (body, media_type)) s (made trimmed) = payload-good body media_type trimmed
  payload_of-good (err e) s (raised stable) = stable

  fetch_ready : KiteEndpoint → Exec S KitePayload
  fetch_ready endpoint = do
    x ← catching (request unicode_decimal clock stream session endpoint)
    lift (payload_of unicode_decimal clock stream session x)

  fetch_ready-good : (endpoint : KiteEndpoint) (s : S) → IsGoodFetch (fetch_ready endpoint s).0
  unfolding fetch_ready
  fetch_ready-good endpoint s =
      payload_of-good _ _ (translate-Raises IsTrimmed _ (request-Ends endpoint s))

  fetch_state-good :
      (endpoint : KiteEndpoint) (r : Result AuthenticationState) (s : S)
      → Raises IsReasoned r
      → IsGoodFetch
          (continue r
            (λ state.
              if is_ready state.status
              then fetch_ready endpoint
              else lift (
                  raise_connector_error ConnectorFailureKind.authentication
                    (or_text state.reason_code (codes "session.not_ready"))
                    none))
            s).0
  fetch_state-good endpoint (ok state) s (made reasoned) =
      branch IsGoodFetch (is_ready state.status) (fetch_ready endpoint) _ s
        (λ _. fetch_ready-good endpoint s)
        (λ not_yet.
          rw
            (raise_connector_error_lem {A = KitePayload} ConnectorFailureKind.authentication
              (or_text state.reason_code (codes "session.not_ready")) (reasoned not_yet))
            (reasoned not_yet))
  fetch_state-good endpoint (err e) s (raised stable) = stable

  -- For a session whose expiry is in UTC, a clock that gives an aware time or raises a
  -- `ConnectorError`, and a client whose answers are an `IsGoodResponse`, `fetch` of any endpoint in
  -- any world gives a payload that its constructor accepts, or raises a `ConnectorError` with a stable
  -- reason code: what `ZerodhaConnector.collect` relies on.
  pub fetch-IsGoodFetch :
      (endpoint : KiteEndpoint) (s : S)
      → IsGoodFetch (fetch unicode_decimal clock stream session endpoint s).0
  unfolding fetch authentication_state fetch_ready
  fetch-IsGoodFetch endpoint s =
      fetch_state-good endpoint _ _
        (state_of-Raises session.access_token session.expires_at s in_utc)
