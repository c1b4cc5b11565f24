-- ===== src/Connectors/Auth/Service/Login.antt =====
-- connectors/zerodha_auth.py: `start` and `complete` as one login.
use mathlib.Core.Path.{ap}
use portfolio_manager.Base.Exec.{Exec, >>=-returns, lift-returns, continue-lift}
use portfolio_manager.Connectors.Auth.Service.{redeem, consumed, complete, nonce_ttl, start}
use portfolio_manager.Application.Laws.{raise_connector_error-ne-ok}
use portfolio_manager.Base.{
  Bool-cases, ConnectorFailureKind, Result, Text, arith, codes, inl, inr, none, ok, some, ◌<◌, ◌≡◌,
  Option, refl, ◌∙◌, false,
}
use portfolio_manager.Connectors.Auth.{
  KiteApiCredentials, KiteAuthorizationResult, KiteNonceStore, KiteTokenExchanger,
  PendingKiteAuthorization, validate_credential, validate_nonce, KiteAuthorizationStart,
  authorization_start_post_init, login_url, pending_post_init,
}
use portfolio_manager.Connectors.Auth.Service.SingleUse.{IsNonceStore}
use portfolio_manager.Connectors.Http.Transport.{now}
use portfolio_manager.Domain.Temporal.{Datetime, not_after, add_micros, as_utc}
use portfolio_manager.Domain.Identifiers.{BrokerConnectionId, TenantId}
use portfolio_manager.Base.Texts.Strip.{text_eq_refl}
use portfolio_manager.Connectors.Http.{KiteSession}

pending-inv :
    (p p' : PendingKiteAuthorization)
    → pending_post_init p ≡ ok p'
    → (p' ≡ record p { expires_at = p'.expires_at })
      × (as_utc p.expires_at "expires_at" ≡ ok p'.expires_at)
unfolding pending_post_init
pending-inv p p' h = ground arith

began-inv :
    (b b' : KiteAuthorizationStart)
    → authorization_start_post_init b ≡ ok b'
    → (b'.login_url ≡ b.login_url) × (as_utc b.expires_at "expires_at" ≡ ok b'.expires_at)
unfolding authorization_start_post_init
began-inv b b' h = ground arith

now-world : {S : Type 0} (clock : Exec S Datetime) (s : S) → (now clock s).1 ≡ (clock s).1
unfolding now
now-world clock s = continue-lift (clock s).0 (λ value. as_utc value "clock value") (clock s).1

module _ (sha256_hex : Text → Text) {S : Type 0} (nonce_store : KiteNonceStore S)
    (law : IsNonceStore nonce_store) (exchange : KiteTokenExchanger S) (clock : Exec S Datetime)
    (nonce_factory : Exec S Text) where
  open law use {holds, consumes, holds-issue}

  -- What is behind a completion that returns `r` from the world `s`, leaving the world `s'`.
  pub record Completed (state token : Text) (c : KiteApiCredentials) (s : S)
      (r : KiteAuthorizationResult) (s' : S) : Type 0 where
    pub authorization : PendingKiteAuthorization
    pub at : Datetime
    pub asked : S
    pub held : holds s (sha256_hex state) ≡ some authorization
    pub told : now clock (nonce_store.consume (sha256_hex state) s).1 ≡ (ok at, asked)
    pub in_time : at.wall < authorization.expires_at.wall
    pub tenant : r.tenant_id ≡ authorization.tenant_id
    pub connection : r.connection_id ≡ authorization.connection_id
    pub exchanged : exchange c token asked ≡ (ok r.session, s')

  redeem-inv :
      (c : KiteApiCredentials) (t : Text) (p : PendingKiteAuthorization) (at : Datetime) (s s' : S)
      (r : KiteAuthorizationResult)
      → redeem sha256_hex nonce_store exchange clock nonce_factory c t p at s ≡ (ok r, s')
      → (at.wall < p.expires_at.wall)
        × (r.tenant_id ≡ p.tenant_id)
        × (r.connection_id ≡ p.connection_id)
        × (exchange c t s ≡ (ok r.session, s'))
  redeem-inv c t p at s s' r h = elim (Bool-cases (not_after p.expires_at at)) [
    | inl late ↦ absurd (
        raise_connector_error-ne-ok ConnectorFailureKind.validation (codes "auth.state_expired")
          none r (ap (λ (x : Result KiteAuthorizationResult × S). x.0) (rw late at h)))
    | inr early ↦
        let (session, s1, given, k) = >>=-returns (exchange c t) _ (rw early at h) in
        (ground arith, cc, cc, cc)
  ]

  consumed-Completed :
      (state token : Text) (c : KiteApiCredentials) (s s' : S) (r : KiteAuthorizationResult)
      (o : Option PendingKiteAuthorization)
      → holds s (sha256_hex state) ≡ o
      → consumed sha256_hex nonce_store exchange clock nonce_factory c token o
          (nonce_store.consume (sha256_hex state) s).1
        ≡ (ok r, s')
      → Completed state token c s r s'
  consumed-Completed state token c s s' r none held h = absurd (
      raise_connector_error-ne-ok ConnectorFailureKind.validation (codes "auth.state_invalid") none
        r (ap (λ (x : Result KiteAuthorizationResult × S). x.0) h))
  consumed-Completed state token c s s' r (some p) held h =
      let (at, asked, told, k) = >>=-returns (now clock) _ h in
      let (in_time, tenant, connection, exchanged) = redeem-inv c token p at asked s' r k in
      record {
        authorization = p;
        at = at;
        asked = asked;
        held = held;
        told = told;
        in_time = in_time;
        tenant = tenant;
        connection = connection;
        exchanged = exchanged;
      }

  -- Over a store that keeps its protocol: when `complete` returns, the store held an authorization
  -- for the state's digest, the time was before its expiry, the result is for the tenant and the
  -- connection of that authorization, and its session is the one that the exchanger gave for the
  -- credentials and the token.
  pub complete-Completed :
      (state token : Text) (c : KiteApiCredentials) (s s' : S) (r : KiteAuthorizationResult)
      → complete sha256_hex nonce_store exchange clock nonce_factory state token c s ≡ (ok r, s')
      → Completed state token c s r s'
  unfolding complete
  complete-Completed state token c s s' r h =
      let (_, _, k1) = lift-returns (validate_nonce state) _ h in
      let (_, _, k2) = lift-returns (validate_credential token "request token") _ k1 in
      let (o, s1, e, k) = >>=-returns (nonce_store.consume (sha256_hex state)) _ k2 in
      let held : holds s (sha256_hex state) ≡ o = cc (
        consumes (sha256_hex state) s,
        ap (λ (x : Result (Option PendingKiteAuthorization) × S). x.0) e,
      ) in
      let left : (nonce_store.consume (sha256_hex state) s).1 ≡ s1 =
        ap (λ (x : Result (Option PendingKiteAuthorization) × S). x.1) e in
      consumed-Completed state token c s s' r o held (rw left k)

  issue-holds :
      (p : PendingKiteAuthorization) (s s' : S) (digest : Text) (done : Unit {0})
      → p.nonce_digest ≡ digest
      → holds s digest ≡ none
      → nonce_store.issue p s ≡ (ok done, s')
      → holds s' digest ≡ some p
  issue-holds p s s' digest done same fresh added =
      rw
        (
          ← ap (λ (x : Result (Unit {0}) × S). x.1) added,
          holds-issue p s digest (rw same fresh),
          same,
          text_eq_refl digest,
        )
        refl

  now-holds :
      ((world : S) (digest : Text) → holds (clock world).1 digest ≡ holds world digest)
      → (s : S) (digest : Text) → holds (now clock s).1 digest ≡ holds s digest
  now-holds clock_keeps s digest = rw (now-world clock s) (clock_keeps s digest)

  -- Over a store that keeps its protocol and a clock that does not touch it: when `start` returns
  -- after drawing a nonce that is not held yet, the login URL carries that nonce, the nonce is a
  -- valid state, and the store holds for its digest the tenant, the connection and the expiry.
  pub start-holds :
      (tenant : TenantId) (connection : BrokerConnectionId) (api_key nonce : Text) (s s1 s2 : S)
      (began : KiteAuthorizationStart)
      → ((world : S) (digest : Text) → holds (clock world).1 digest ≡ holds world digest)
      → nonce_factory s ≡ (ok nonce, s1)
      → holds s1 (sha256_hex nonce) ≡ none
      → start sha256_hex nonce_store exchange clock nonce_factory tenant connection api_key s
        ≡ (ok began, s2)
      → (began.login_url ≡ login_url api_key nonce)
        × (validate_nonce nonce ≡ ok tt)
        × (holds s2 (sha256_hex nonce)
            ≡ some (record {
              tenant_id = tenant;
              connection_id = connection;
              nonce_digest = sha256_hex nonce;
              expires_at = began.expires_at;
            }))
  unfolding start
  start-holds tenant connection api_key nonce s s1 s2 began clock_keeps drawn fresh h =
      let (_, _, k0) = lift-returns (validate_credential api_key "API key") _ h in
      let (_, valid, k1) = lift-returns (validate_nonce nonce) _ (rw drawn at k0) in
      let (at, s3, told, k2) = >>=-returns (now clock) _ k1 in
      let (until, _, k3) = lift-returns (add_micros at nonce_ttl) _ k2 in
      let (pending, made, k4) = lift-returns (pending_post_init _) _ k3 in
      let (_, s4, added, k5) = >>=-returns (nonce_store.issue pending) _ k4 in
      let (same, kept) = pending-inv _ pending made in
      let (url, kept') =
        began-inv _ began (ap (λ (x : Result KiteAuthorizationStart × S). x.0) k5) in
      let digest : pending.nonce_digest ≡ sha256_hex nonce =
        ap (λ (p : PendingKiteAuthorization). p.nonce_digest) same in
      let unheld : holds s3 (sha256_hex nonce) ≡ none =
        rw (← ap (λ (x : Result Datetime × S). x.1) told)
          (now-holds clock_keeps s1 (sha256_hex nonce) ∙ fresh) in
      let stored : holds s4 (sha256_hex nonce) ≡ some pending =
        issue-holds pending s3 s4 (sha256_hex nonce) tt digest unheld added in
      let last : s4 ≡ s2 = ap (λ (x : Result KiteAuthorizationStart × S). x.1) k5 in
      let expiry : pending.expires_at ≡ began.expires_at = cc (kept, kept') in
      let found : holds s2 (sha256_hex nonce) ≡ some pending = rw last at stored in
      (
        url,
        valid,
        found
            ∙ ap some (
                same
                ∙ ap
                    (λ (until : Datetime). record {
                      tenant_id = tenant;
                      connection_id = connection;
                      nonce_digest = sha256_hex nonce;
                      expires_at = until;
                    })
                    expiry),
      )

  -- The whole login, over a store that keeps its protocol and a clock that does not touch it: after a
  -- `start` that returned with a nonce that was not held before, `complete` with that nonce as its
  -- state and a valid token, from any world where the store still holds what it held for the nonce's
  -- digest, at a time before the expiry that `start` gave, and with an exchange that returns a
  -- session, returns that session for the tenant and the connection that `start` was given.
  pub start-complete :
      (tenant : TenantId) (connection : BrokerConnectionId) (api_key nonce : Text) (s s1 s2 : S)
      (began : KiteAuthorizationStart)
      → ((world : S) (digest : Text) → holds (clock world).1 digest ≡ holds world digest)
      → nonce_factory s ≡ (ok nonce, s1)
      → holds s1 (sha256_hex nonce) ≡ none
      → start sha256_hex nonce_store exchange clock nonce_factory tenant connection api_key s
        ≡ (ok began, s2)
      → (token : Text) (c : KiteApiCredentials) (t t1 t2 : S) (at : Datetime)
        (session : KiteSession)
      → validate_credential token "request token" ≡ ok tt
      → holds t (sha256_hex nonce) ≡ holds s2 (sha256_hex nonce)
      → now clock (nonce_store.consume (sha256_hex nonce) t).1 ≡ (ok at, t1)
      → at.wall < began.expires_at.wall
      → exchange c token t1 ≡ (ok session, t2)
      → complete sha256_hex nonce_store exchange clock nonce_factory nonce token c t
        ≡ (ok (record { tenant_id = tenant; connection_id = connection; session = session }), t2)
  unfolding complete
  start-complete tenant connection api_key nonce s s1 s2 began clock_keeps drawn fresh h token c t
        t1 t2 at session good still told early exchanged =
      let (_, valid, held) =
        start-holds tenant connection api_key nonce s s1 s2 began clock_keeps drawn fresh h in
      let in_time : not_after began.expires_at at ≡ false = ground arith in
      rw (valid, good, consumes (sha256_hex nonce) t, still, held, told, in_time, exchanged) refl
