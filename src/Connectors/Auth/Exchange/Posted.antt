-- ===== src/Connectors/Auth/Exchange/Posted.antt =====
-- connectors/zerodha_auth.py: the bytes that a token request gives.
use portfolio_manager.Base.Exec.{Exec, >>=-returns, lift-returns}
use portfolio_manager.Connectors.Auth.Exchange.{
  TokenData, post_token, raise_for_status, read_bounded,
}
use portfolio_manager.Application.Laws.{raise_connector_error-ne-ok}
use portfolio_manager.Base.{
  timeout_exception, network_error, length, ConnectorFailureKind, Result, Text, arith, codes, err,
  none, ok, some, ℕ, ℤ, ◌≡◌, List, Option, ◌*◌, ap, [], ◌++◌, ◌<◌, ◌∷◌, ◌≤◌,
}
use portfolio_manager.Connectors.Http.{Response, read_chunks}
use portfolio_manager.Domain.Temporal.{Datetime}
use portfolio_manager.Application.{Bytes}
use portfolio_manager.Connectors.Auth.{KiteApiCredentials}
use portfolio_manager.Connectors.Http.Transport.{Header, catching, translate}
use portfolio_manager.Connectors.Http.Reading.{read_chunks_sound, whole_body}

translate-eq-ok : {A : Type 0} (r : Result A) (a : A) → translate r ≡ ok a → r ≡ ok a
translate-eq-ok (ok x) a h = h
translate-eq-ok (err timeout_exception) a h =
    absurd (
      raise_connector_error-ne-ok ConnectorFailureKind.transient (codes "provider.timeout") none a
        h)
translate-eq-ok (err network_error) a h = absurd (
    raise_connector_error-ne-ok ConnectorFailureKind.transient (codes "provider.network_error") none
      a h)
translate-eq-ok (err _) a h = cc

raise_for_status-ok :
    (response : Response)
    → raise_for_status response ≡ ok tt
    → (200 ≤ response.status_code) × (response.status_code < 300)
unfolding raise_for_status
raise_for_status-ok response h = ground (
  arith,
  raise_connector_error-ne-ok {0} ConnectorFailureKind.authentication
      (codes "auth.exchange_rejected") none tt,
  raise_connector_error-ne-ok {0} ConnectorFailureKind.rate_limit (codes "provider.rate_limit") none
      tt,
  raise_connector_error-ne-ok {0} ConnectorFailureKind.transient (codes "provider.unavailable") none
      tt,
  raise_connector_error-ne-ok {0} ConnectorFailureKind.permanent (codes "provider.exchange_failed")
      none tt,
)

module _ (sha256_hex : Text → Text) (model_validate_json : Bytes → Option TokenData)
    (offset_at_utc offset_at_wall : ℕ → ℤ) {S : Type 0} (clock : Exec S Datetime)
    (stream : Text → List Header → List Header → Exec S Response) where
  -- What the client was asked in the world `s`, and what it answered, with the world `s1` that this
  -- left and the bytes of the answer.
  pub record Answered (c : KiteApiCredentials) (t : Text) (s s1 : S) (content : Bytes)
      : Type 0 where
    pub response : Response
    pub posted :
        stream
          (codes "/session/token")
          (record { name = codes "X-Kite-Version"; value = codes "3" } ∷ [])
          (record { name = codes "api_key"; value = c.api_key }
            ∷ record { name = codes "request_token"; value = t }
            ∷ record {
              name = codes "checksum";
              value = sha256_hex (c.api_key ++ (t ++ c.api_secret));
            }
            ∷ [])
          s
        ≡ (ok response, s1)
    pub not_below : 200 ≤ response.status_code
    pub not_above : response.status_code < 300
    pub whole : whole_body response.stream ≡ some content
    pub fits : length content ≤ 1024 * 1024

  post_token-inv :
      (c : KiteApiCredentials) (t : Text) (content : Bytes) (s s1 : S)
      → post_token sha256_hex model_validate_json offset_at_utc offset_at_wall clock stream c t s
        ≡ (ok content, s1)
      → Answered c t s s1 content
  unfolding post_token read_bounded
  post_token-inv c t content s s1 h =
      let (response, s2, posted, k1) = >>=-returns (stream _ _ _) _ h in
      let (_, passes, k2) = lift-returns (raise_for_status response) _ k1 in
      let given : read_chunks (1024 * 1024) 0 [] response.stream ≡ ok content =
        ap (λ (x : Result Bytes × S). x.0) k2 in
      let left : s2 ≡ s1 = ap (λ (x : Result Bytes × S). x.1) k2 in
      let (not_below, not_above) = raise_for_status-ok response passes in
      let (whole, fits) = read_chunks_sound (1024 * 1024) response.stream content given in
      record {
        response = response;
        posted = rw left at posted;
        not_below = not_below;
        not_above = not_above;
        whole = whole;
        fits = fits;
      }

  pub post_token-caught :
      (c : KiteApiCredentials) (t : Text) (content : Bytes) (s s1 : S)
      → catching
          (post_token sha256_hex model_validate_json offset_at_utc offset_at_wall clock stream c t)
          s
        ≡ (ok content, s1)
      → Answered c t s s1 content
  post_token-caught c t content s s1 h =
      let run =
        post_token sha256_hex model_validate_json offset_at_utc offset_at_wall clock stream c t s in
      let given : run.0 ≡ ok content =
        translate-eq-ok run.0 content (ap (λ (x : Result Bytes × S). x.0) h) in
      let left : run.1 ≡ s1 = ap (λ (x : Result Bytes × S). x.1) h in
      post_token-inv c t content s s1 (λ i. (given i, left i))
