-- ===== src/Connectors/Auth/Service/SingleUse.antt =====
-- connectors/zerodha_auth.py: the authorizations that a nonce store holds around `complete`.
use portfolio_manager.Base.Exec.{Exec, continue, lift}
use portfolio_manager.Base.{
  Option, Text, if◌then◌else◌, none, ok, refl, some, text_eq, ◌≡◌, Bool-cases, ConnectorFailureKind,
  Result, all, codes, connector_error, err, inl, inr, ◌∙◌,
}
use portfolio_manager.Connectors.Auth.{
  KiteApiCredentials, KiteNonceStore, KiteTokenExchanger, PendingKiteAuthorization,
  validate_credential, validate_nonce,
}
use portfolio_manager.Connectors.Auth.Service.{complete, consumed, redeem}
use portfolio_manager.Connectors.Http.Transport.{now}
use portfolio_manager.Domain.Temporal.{Datetime, as_utc, not_after}
use portfolio_manager.Application.{raise_connector_error}
use portfolio_manager.Base.Texts.Strip.{text_eq_refl}

-- The protocol of the nonce store, "store hashed state and atomically remove it on consumption", told
-- by what it holds for each digest. Neither the clock nor the exchanger touches what it holds.
pub record IsNonceStore {S : Type 0} (store : KiteNonceStore S) : Type 0 where
  pub holds : S → Text → Option PendingKiteAuthorization
  pub issued :
      (p : PendingKiteAuthorization) (s : S)
      → holds s p.nonce_digest ≡ none
      → (store.issue p s).0 ≡ ok tt
  pub holds-issue :
      (p : PendingKiteAuthorization) (s : S) (digest : Text)
      → holds s p.nonce_digest ≡ none
      → holds (store.issue p s).1 digest
        ≡ (if text_eq digest p.nonce_digest then some p else holds s digest)
  pub consumes : (digest : Text) (s : S) → (store.consume digest s).0 ≡ ok (holds s digest)
  pub holds-consume :
      (digest other : Text) (s : S)
      → holds (store.consume digest s).1 other
        ≡ (if text_eq other digest then none else holds s other)

module _ (sha256_hex : Text → Text) {S : Type 0} (nonce_store : KiteNonceStore S)
    (law : IsNonceStore nonce_store) (exchange : KiteTokenExchanger S) (clock : Exec S Datetime)
    (nonce_factory : Exec S Text)
    (clock_keeps : (s : S) (digest : Text) → law.holds (clock s).1 digest ≡ law.holds s digest)
    (exchange_keeps : (c : KiteApiCredentials) (t : Text) (s : S) (digest : Text)
      → law.holds (exchange c t s).1 digest ≡ law.holds s digest) where
  open law use {holds, consumes, holds-consume}

  continue-holds :
      {A B : Type 0} (r : Result A) (f : A → Exec S B) (s : S) (digest : Text)
      → ((a : A) → holds (f a s).1 digest ≡ holds s digest)
      → holds (continue r f s).1 digest ≡ holds s digest
  continue-holds (ok a) f s digest h = h a
  continue-holds (err e) f s digest h = refl

  now-holds : (s : S) (digest : Text) → holds (now clock s).1 digest ≡ holds s digest
  unfolding now
  now-holds s digest =
      continue-holds (clock s).0 (λ value. lift (as_utc value "clock value")) (clock s).1 digest
        (λ value. refl)
      ∙ clock_keeps s digest

  redeem-holds :
      (c : KiteApiCredentials) (t : Text) (p : PendingKiteAuthorization) (at : Datetime) (s : S)
      (digest : Text)
      → holds (redeem sha256_hex nonce_store exchange clock nonce_factory c t p at s).1 digest
        ≡ holds s digest
  redeem-holds c t p at s digest = elim (Bool-cases (not_after p.expires_at at)) [
    | inl late ↦ rw late
    | inr in_time ↦ rw in_time (
        continue-holds (exchange c t s).0 _ (exchange c t s).1 digest (λ session. refl)
        ∙ exchange_keeps c t s digest)
  ]

  consumed-holds :
      (c : KiteApiCredentials) (t : Text) (o : Option PendingKiteAuthorization) (s : S)
      (digest : Text)
      → holds (consumed sha256_hex nonce_store exchange clock nonce_factory c t o s).1 digest
        ≡ holds s digest
  consumed-holds c t none s digest = refl
  consumed-holds c t (some p) s digest =
      continue-holds (now clock s).0
        (redeem sha256_hex nonce_store exchange clock nonce_factory c t p) (now clock s).1 digest
        (λ at. redeem-holds c t p at (now clock s).1 digest)
      ∙ now-holds s digest

  -- A state that the store does not hold is invalid.
  unknown :
      (state token : Text) (c : KiteApiCredentials) (s : S)
      → validate_nonce state ≡ ok tt
      → validate_credential token "request token" ≡ ok tt
      → holds s (sha256_hex state) ≡ none
      → (complete sha256_hex nonce_store exchange clock nonce_factory state token c s).0
        ≡ err (connector_error ConnectorFailureKind.validation (codes "auth.state_invalid") none)
  unfolding complete raise_connector_error all
  unknown state token c s valid good absent =
      rw (valid, good, consumes (sha256_hex state) s, absent)

  -- Over a store that keeps its protocol, with a clock and an exchanger that do not touch it: after
  -- `complete` with a valid state and token, whether it returned or raised, the store holds nothing
  -- for the state's digest, and for any other digest what it held.
  pub complete-holds :
      (state token : Text) (c : KiteApiCredentials) (s : S) (digest : Text)
      → validate_nonce state ≡ ok tt
      → validate_credential token "request token" ≡ ok tt
      → holds
          (complete sha256_hex nonce_store exchange clock nonce_factory state token c s).1
          digest
        ≡ (if text_eq digest (sha256_hex state) then none else holds s digest)
  unfolding complete
  complete-holds state token c s digest valid good =
      rw (valid, good, consumes (sha256_hex state) s)
        (consumed-holds c token _ (nonce_store.consume (sha256_hex state) s).1 digest
          ∙ holds-consume (sha256_hex state) digest s)

  -- Over a store that keeps its protocol, with a clock and an exchanger that do not touch it:
  -- completing a second time with the same valid state, whatever the first attempt came to and
  -- whichever valid token and credentials come with it, raises `auth.state_invalid`.
  pub complete-once :
      (state token token' : Text) (c c' : KiteApiCredentials) (s : S)
      → validate_nonce state ≡ ok tt
      → validate_credential token "request token" ≡ ok tt
      → validate_credential token' "request token" ≡ ok tt
      → let s' = (complete sha256_hex nonce_store exchange clock nonce_factory state token c s).1 in
        (complete sha256_hex nonce_store exchange clock nonce_factory state token' c' s').0
        ≡ err (connector_error ConnectorFailureKind.validation (codes "auth.state_invalid") none)
  complete-once state token token' c c' s valid good good' =
      unknown state token' c' _ valid good'
        (complete-holds state token c s (sha256_hex state) valid good ∙ rw text_eq_refl)
