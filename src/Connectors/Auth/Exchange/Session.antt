-- ===== src/Connectors/Auth/Exchange/Session.antt =====
-- connectors/zerodha_auth.py: the session that an exchange gives.
use portfolio_manager.Connectors.Auth.Exchange.Posted.{Answered, post_token-caught}
use portfolio_manager.Base.Exec.{Exec, >>=-returns, lift-returns}
use portfolio_manager.Connectors.Auth.Exchange.{
  validated, matching, reworded, catching_value, compare_digest, TokenData, exchange, post_token,
  session_of,
}
use portfolio_manager.Application.Laws.{raise_connector_error-ne-ok}
use portfolio_manager.Base.{
  Bool-cases, inl, inr, is_value_error, ConnectorFailureKind, Result, Text, arith, codes, err,
  false, none, not_printable, ok, some, true, ℕ, ℤ, ◌≡◌, Bool, Error, refl, List, Option, ap, ◌∙◌,
}
use portfolio_manager.Base.Texts.Strip.{text_eq_iff}
use portfolio_manager.Connectors.Auth.Expiry.{session_expiry}
use portfolio_manager.Connectors.Http.{KiteSession, Response}
use portfolio_manager.Domain.Temporal.{Datetime, utc}
use portfolio_manager.Application.{Bytes}
use portfolio_manager.Connectors.Auth.{KiteApiCredentials, validate_credential}
use portfolio_manager.Connectors.Http.Transport.{Header, catching, now}
use portfolio_manager.Domain.Temporal.Laws.{as_utc-utc}
use portfolio_manager.Connectors.Auth.Exchange.Expiring.{expiry-utc, session-inv}

err-ne-ok : {A : Type 0} (e : Error) (a : A) → ¬ (Result.err e ≡ ok a)
err-ne-ok e a h = cc

reworded-eq-ok : {A : Type 0} (r : Result A) (a : A) → reworded r ≡ ok a → r ≡ ok a
reworded-eq-ok (ok x) a h = h
reworded-eq-ok (err e) a h = elim (Bool-cases (is_value_error e)) [
  | inl caught ↦ absurd (
      raise_connector_error-ne-ok ConnectorFailureKind.validation
        (codes "provider.invalid_response") none a (rw caught at h))
  | inr passed ↦ absurd (err-ne-ok e a (rw passed at h))
]

compare_digest-eq : (a b : Text) → compare_digest a b ≡ ok true → a ≡ b
unfolding compare_digest
compare_digest-eq a b h = ground (arith, text_eq_iff a b)

module _ (sha256_hex : Text → Text) (model_validate_json : Bytes → Option TokenData)
    (offset_at_utc offset_at_wall : ℕ → ℤ) {S : Type 0} (clock : Exec S Datetime)
    (stream : Text → List Header → List Header → Exec S Response) where
  -- What is behind an exchange of `t` that returns `session`, from the world `s` to `s'`.
  pub record Exchanged (c : KiteApiCredentials) (t : Text) (session : KiteSession) (s s' : S)
      : Type 0 where
    pub content : Bytes
    pub envelope : TokenData
    pub at : Datetime
    pub expiry : Datetime
    pub asked : S
    pub answered :
        Answered sha256_hex model_validate_json offset_at_utc offset_at_wall clock stream c t s
          asked content
    pub read : model_validate_json content ≡ some envelope
    pub for_key : envelope.api_key ≡ c.api_key
    pub key : session.api_key ≡ c.api_key
    pub token : session.access_token ≡ some envelope.access_token
    pub printable : not_printable envelope.access_token ≡ false
    pub told : now clock asked ≡ (ok at, s')
    pub expires : session_expiry offset_at_utc offset_at_wall at ≡ ok expiry
    pub until : session.expires_at ≡ some expiry
    pub in_utc : expiry ≡ utc expiry.wall

  validated-inv :
      (o : Option TokenData) (d : TokenData)
      → validated sha256_hex model_validate_json offset_at_utc offset_at_wall clock stream o ≡ ok d
      → o ≡ some d
  validated-inv none d h = absurd (
      raise_connector_error-ne-ok ConnectorFailureKind.validation
        (codes "provider.invalid_response") none d h)
  validated-inv (some x) d h = ground arith

  matching-inv :
      (b : Bool)
      → matching sha256_hex model_validate_json offset_at_utc offset_at_wall clock stream b ≡ ok tt
      → b ≡ true
  matching-inv true h = refl
  matching-inv false h = absurd (
      raise_connector_error-ne-ok ConnectorFailureKind.validation
        (codes "provider.api_key_mismatch") none tt h)

  session_of-inv :
      (c : KiteApiCredentials) (d : TokenData) (session : KiteSession) (s s' : S)
      → session_of sha256_hex model_validate_json offset_at_utc offset_at_wall clock stream c d s
        ≡ (ok session, s')
      → (at : Datetime) × (expiry : Datetime) × (now clock s ≡ (ok at, s'))
        × (session_expiry offset_at_utc offset_at_wall at ≡ ok expiry)
        × (session.api_key ≡ c.api_key)
        × (session.access_token ≡ some d.access_token)
        × (not_printable d.access_token ≡ false)
        × (session.expires_at ≡ some expiry)
        × (expiry ≡ utc expiry.wall)
  unfolding session_of
  session_of-inv c d session s s' h =
      let (at, s1, told, k1) = >>=-returns (now clock) _ h in
      let (expiry, expires, k2) =
        lift-returns (session_expiry offset_at_utc offset_at_wall at) _ k1 in
      let (key, token, printable, (u, normal, until)) =
        session-inv c.api_key d.access_token expiry session
          (ap (λ (x : Result KiteSession × S). x.0) k2) in
      let same : s1 ≡ s' = ap (λ (x : Result KiteSession × S). x.1) k2 in
      let in_utc : expiry ≡ utc expiry.wall =
        expiry-utc offset_at_utc offset_at_wall at expiry expires in
      let u_is : u ≡ expiry = cc (normal, rw (← in_utc) at (as_utc-utc expiry.wall "expires_at")) in
      (at, expiry, rw same at told, expires, key, token, printable, until ∙ ap some u_is, in_utc)

  session_of-caught :
      (c : KiteApiCredentials) (d : TokenData) (session : KiteSession) (s s' : S)
      → catching_value
          (session_of sha256_hex model_validate_json offset_at_utc offset_at_wall clock stream c d)
          s
        ≡ (ok session, s')
      → session_of sha256_hex model_validate_json offset_at_utc offset_at_wall clock stream c d s
        ≡ (ok session, s')
  session_of-caught c d session s s' h =
      let run =
        session_of sha256_hex model_validate_json offset_at_utc offset_at_wall clock stream c d s in
      let given : run.0 ≡ ok session =
        reworded-eq-ok run.0 session (ap (λ (x : Result KiteSession × S). x.0) h) in
      let left : run.1 ≡ s' = ap (λ (x : Result KiteSession × S). x.1) h in λ i. (given i, left i)

  -- When `exchange` returns a session: the client was asked to post the API key, the request token
  -- and the checksum of the API key, the token and the API secret, under version 3; its answer has a
  -- status from 200 to 299 and a body that ends without an exception, in at most 1 MiB; pydantic read
  -- the bytes of the whole body, as an answer for the API key of the credentials; the session has that
  -- key, the answer's token, which is printable ASCII, and the expiry that `_session_expiry` gives for
  -- the time that the clock tells after the answer, in UTC.
  pub exchange-Exchanged :
      (c : KiteApiCredentials) (t : Text) (session : KiteSession) (s s' : S)
      → exchange sha256_hex model_validate_json offset_at_utc offset_at_wall clock stream c t s
        ≡ (ok session, s')
      → Exchanged c t session s s'
  unfolding exchange
  exchange-Exchanged c t session s s' h =
      let (_, _, k1) = lift-returns (validate_credential t "request token") _ h in
      let (content, s1, caught, k2) =
        >>=-returns
          (catching (
            post_token sha256_hex model_validate_json offset_at_utc offset_at_wall clock stream c
              t))
          _ k1 in
      let (envelope, valid, k3) =
        lift-returns
          (validated sha256_hex model_validate_json offset_at_utc offset_at_wall clock stream
            (model_validate_json content))
          _ k2 in
      let (same, compared, k4) = lift-returns (compare_digest envelope.api_key c.api_key) _ k3 in
      let (_, matched, k5) =
        lift-returns
          (matching sha256_hex model_validate_json offset_at_utc offset_at_wall clock stream same) _
          k4 in
      let (at, expiry, told, expires, key, token, printable, until, in_utc) =
        session_of-inv c envelope session s1 s' (session_of-caught c envelope session s1 s' k5) in
      record {
        content = content;
        envelope = envelope;
        at = at;
        expiry = expiry;
        asked = s1;
        answered =
            post_token-caught sha256_hex model_validate_json offset_at_utc offset_at_wall clock
              stream c t content s s1 caught;
        read = validated-inv (model_validate_json content) envelope valid;
        for_key =
            compare_digest-eq envelope.api_key c.api_key
              (rw (matching-inv same matched) at compared);
        key = key;
        token = token;
        printable = printable;
        told = told;
        expires = expires;
        until = until;
        in_utc = in_utc;
      }
