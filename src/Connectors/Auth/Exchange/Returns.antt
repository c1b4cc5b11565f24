-- ===== src/Connectors/Auth/Exchange/Returns.antt =====
-- connectors/zerodha_auth.py: an exchange to which the broker gives a good answer.
use portfolio_manager.Base.Exec.{Exec}
use portfolio_manager.Connectors.Auth.Exchange.{
  TokenData, compare_digest, exchange, post_token, raise_for_status, read_bounded, session_of,
}
use portfolio_manager.Connectors.Auth.Exchange.Posted.{Answered}
use portfolio_manager.Connectors.Auth.Exchange.Expiring.{expiry-utc}
use portfolio_manager.Application.{Bytes}
use portfolio_manager.Base.{
  List, Option, Result, Text, arith, false, is_ascii, not_printable, ok, raise_if-ok, refl, some,
  true, ℕ, ℤ, ◌≡◌, ◌*◌, [], length, ◌<◌, ◌∙◌, ◌≤◌,
}
use portfolio_manager.Base.Texts.Strip.{text_eq_refl}
use portfolio_manager.Connectors.Auth.{KiteApiCredentials, validate_credential}
use portfolio_manager.Connectors.Auth.Expiry.{session_expiry}
use portfolio_manager.Connectors.Http.{
  Response, kite_session_post_init, read_chunks, validate_secret,
}
use portfolio_manager.Connectors.Http.Reading.{read_chunks-whole, whole_body}
use portfolio_manager.Connectors.Http.Transport.{Header, now}
use portfolio_manager.Domain.Temporal.{Datetime, as_utc, utc}
use portfolio_manager.Domain.Temporal.Laws.{as_utc-utc}

ok-raise_for_status :
    (response : Response)
    → 200 ≤ response.status_code
    → response.status_code < 300
    → raise_for_status response ≡ ok tt
unfolding raise_for_status
ok-raise_for_status response h k = ground arith

ok-read_chunks :
    (limit : ℕ) (stream : List (Result Bytes)) (body : Bytes)
    → whole_body stream ≡ some body
    → length body ≤ limit
    → read_chunks limit 0 [] stream ≡ ok body
ok-read_chunks limit stream body whole fits =
    read_chunks-whole limit 0 [] stream body whole (omega arith) ∙ ground arith

credential-printable :
    (value : Text)
    → validate_credential value "API key" ≡ ok tt
    → (not_printable value ≡ false) × (is_ascii value ≡ true)
unfolding validate_credential
credential-printable value h = let fine = raise_if-ok _ _ h in (ground arith, ground arith)

compare_digest_refl : (a : Text) → is_ascii a ≡ true → compare_digest a a ≡ ok true
unfolding compare_digest
compare_digest_refl a h = rw (h, text_eq_refl) refl

as_utc-expiry : (e : Datetime) → e ≡ utc e.wall → as_utc e "expires_at" ≡ ok e
as_utc-expiry e h = rw h (as_utc-utc e.wall "expires_at")

module _ (sha256_hex : Text → Text) (model_validate_json : Bytes → Option TokenData)
    (offset_at_utc offset_at_wall : ℕ → ℤ) {S : Type 0} (clock : Exec S Datetime)
    (stream : Text → List Header → List Header → Exec S Response) where
  session_of-returns :
      (c : KiteApiCredentials) (envelope : TokenData) (at expiry : Datetime) (s1 s' : S)
      → validate_credential c.api_key "API key" ≡ ok tt
      → not_printable envelope.access_token ≡ false
      → now clock s1 ≡ (ok at, s')
      → session_expiry offset_at_utc offset_at_wall at ≡ ok expiry
      → session_of sha256_hex model_validate_json offset_at_utc offset_at_wall clock stream c
          envelope s1
        ≡ (
          ok (record {
            api_key = c.api_key;
            access_token = some envelope.access_token;
            expires_at = some expiry;
          }),
          s',
        )
  unfolding session_of kite_session_post_init validate_secret
  session_of-returns c envelope at expiry s1 s' key token told expires =
      let normal =
        as_utc-expiry expiry (expiry-utc offset_at_utc offset_at_wall at expiry expires) in
      rw (told, expires, (credential-printable c.api_key key).0, token, normal) refl

  -- Where the credentials' API key and the request token are accepted, the client answers the post
  -- with a status from 200 to 299 and a whole body of at most 1 MiB, pydantic reads these bytes as an
  -- answer for that API key with a token of printable ASCII, the clock then tells a time, and
  -- `_session_expiry` gives an expiry for it: exchange returns the session of that key and token with
  -- that expiry.
  pub exchange-returns :
      (c : KiteApiCredentials) (t : Text) (content : Bytes) (envelope : TokenData)
      (at expiry : Datetime) (s s1 s' : S)
      → validate_credential c.api_key "API key" ≡ ok tt
      → validate_credential t "request token" ≡ ok tt
      → Answered sha256_hex model_validate_json offset_at_utc offset_at_wall clock stream c t s s1
          content
      → model_validate_json content ≡ some envelope
      → envelope.api_key ≡ c.api_key
      → not_printable envelope.access_token ≡ false
      → now clock s1 ≡ (ok at, s')
      → session_expiry offset_at_utc offset_at_wall at ≡ ok expiry
      → exchange sha256_hex model_validate_json offset_at_utc offset_at_wall clock stream c t s ≡ (
        ok (record {
          api_key = c.api_key;
          access_token = some envelope.access_token;
          expires_at = some expiry;
        }),
        s',
      )
  unfolding exchange post_token read_bounded session_of
  exchange-returns c t content envelope at expiry s s1 s' key asked a read same token told expires =
      let passes = ok-raise_for_status a.response a.not_below a.not_above in
      let whole = ok-read_chunks (1024 * 1024) a.response.stream content a.whole a.fits in
      let compared = compare_digest_refl c.api_key (credential-printable c.api_key key).1 in
      let made = session_of-returns c envelope at expiry s1 s' key token told expires in
      rw (asked, a.posted, passes, whole, read, same, compared, made) refl
