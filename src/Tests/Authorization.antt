-- ===== src/Tests/Authorization.antt =====
-- connectors/zerodha_auth.py: a login with a nonce store that keeps its states in a function.
use portfolio_manager.Base.Exec.{Exec}
use portfolio_manager.Base.{
  ConnectorFailureKind, Option, Text, all, any, codes, connector_error, err, if◌then◌else◌,
  is_space, lstrip, none, ok, refl, rstrip, some, strip, text_eq, ◌≡◌, arith,
}
use portfolio_manager.Connectors.Auth.{
  KiteApiCredentials, KiteNonceStore, KiteTokenExchanger, PendingKiteAuthorization,
  validate_credential, validate_nonce, KiteAuthorizationResult, KiteAuthorizationStart,
  authorization_start_post_init, login_url, pending_post_init,
}
use portfolio_manager.Connectors.Auth.Service.{complete, consumed, start}
use portfolio_manager.Connectors.Auth.Service.SingleUse.{
  IsNonceStore, complete-holds, complete-once,
}
use portfolio_manager.Connectors.Http.{KiteSession}
use portfolio_manager.Connectors.Http.Transport.{now}
use portfolio_manager.Domain.Temporal.{Datetime, as_utc, astimezone_utc, utc, add_micros}
use portfolio_manager.Connectors.Auth.Service.Login.{Completed, complete-Completed, start-complete}

abbrev Store : Type 0
Store = Text → Option PendingKiteAuthorization

abbrev after_issue : PendingKiteAuthorization → Store → Store
after_issue p s digest = if text_eq digest p.nonce_digest then some p else s digest

abbrev after_consume : Text → Store → Store
after_consume consumed s digest = if text_eq digest consumed then none else s digest

abbrev store : KiteNonceStore Store
store = record {
  issue = λ p s. (ok tt, after_issue p s);
  consume = λ digest s. (ok (s digest), after_consume digest s);
}

store-IsNonceStore : IsNonceStore store
store-IsNonceStore = record {
  holds = λ s. s;
  issued = λ p s fresh. refl;
  holds-issue = λ p s digest fresh. refl;
  consumes = λ digest s. refl;
  holds-consume = λ digest other s. refl;
}

-- Stands for the digest of a nonce.
abbrev digest : Text → Text
digest nonce = codes "0123456789abcdef0123456789abcdef0123456789abcdef0123456789abcdef"

abbrev session : KiteSession
session = record { api_key = codes "key"; access_token = some (codes "access"); expires_at = none }

abbrev exchange : KiteTokenExchanger Store
exchange c token s = (ok session, s)

abbrev clock : Exec Store Datetime
clock s = (ok (utc 1000), s)

abbrev nonce : Text
nonce = codes "abcdefghijklmnopqrstuvwxyz012345"

abbrev nonces : Exec Store Text
nonces s = (ok nonce, s)

abbrev credentials : KiteApiCredentials
credentials = record { api_key = codes "key"; api_secret = codes "secret" }

abbrev pending : PendingKiteAuthorization
pending = record {
  tenant_id = record { value = 1 };
  connection_id = record { value = 2 };
  nonce_digest = digest nonce;
  expires_at = utc 2000;
}

abbrev issued : Store
issued = after_issue pending (λ d. none)

nonce-valid : validate_nonce nonce ≡ ok tt
unfolding validate_nonce any all
nonce-valid = refl

token-valid : validate_credential (codes "request") "request token" ≡ ok tt
unfolding validate_credential any all strip lstrip rstrip is_space
token-valid = refl

complete-issued :
    (complete digest store exchange clock nonces nonce (codes "request") credentials issued).0
    ≡ ok (record {
      tenant_id = record { value = 1 };
      connection_id = record { value = 2 };
      session = session;
    })
unfolding complete validate_nonce validate_credential any all strip lstrip rstrip is_space now
    as_utc astimezone_utc
complete-issued = refl

complete-once_example :
    (complete digest store exchange clock nonces nonce
      (codes "request")
      credentials
      (complete digest store exchange clock nonces nonce (codes "request") credentials issued).1).0
    ≡ err (connector_error ConnectorFailureKind.validation (codes "auth.state_invalid") none)
complete-once_example =
    complete-once digest store store-IsNonceStore exchange clock nonces (λ s d. refl)
      (λ c t s d. refl) nonce (codes "request") (codes "request") credentials credentials issued
      nonce-valid token-valid token-valid

complete-holds_example :
    (complete digest store exchange clock nonces nonce (codes "request") credentials issued).1
      (digest nonce)
    ≡ (if text_eq (digest nonce) (digest nonce) then none else issued (digest nonce))
unfolding store-IsNonceStore
complete-holds_example =
    complete-holds digest store store-IsNonceStore exchange clock nonces (λ s d. refl)
      (λ c t s d. refl) nonce (codes "request") credentials issued (digest nonce) nonce-valid
      token-valid

abbrev result : KiteAuthorizationResult
result = record {
  tenant_id = record { value = 1 };
  connection_id = record { value = 2 };
  session = session;
}

complete-result :
    complete digest store exchange clock nonces nonce (codes "request") credentials issued
    ≡ (ok result, after_consume (digest nonce) issued)
unfolding complete validate_nonce validate_credential any all strip lstrip rstrip is_space now
    as_utc astimezone_utc
complete-result = refl

complete-Completed_example :
    Completed digest store store-IsNonceStore exchange clock nonces nonce
      (codes "request")
      credentials
      issued
      result
      (after_consume (digest nonce) issued)
complete-Completed_example =
    complete-Completed digest store store-IsNonceStore exchange clock nonces nonce (codes "request")
      credentials issued (after_consume (digest nonce) issued) result complete-result

abbrev began : KiteAuthorizationStart
began = record { login_url = login_url (codes "key") nonce; expires_at = utc 300001000 }

abbrev after_start : Store
after_start = after_issue (record pending { expires_at = utc 300001000 }) (λ d. none)

start-began :
    start digest store exchange clock nonces
      (record { value = 1 })
      (record { value = 2 })
      (codes "key")
      (λ d. none)
    ≡ (ok began, after_start)
unfolding start validate_nonce validate_credential pending_post_init authorization_start_post_init
    add_micros any all strip lstrip rstrip is_space now as_utc astimezone_utc
start-began = refl

now-clock :
    now clock (after_consume (digest nonce) after_start)
    ≡ (ok (utc 1000), after_consume (digest nonce) after_start)
unfolding now as_utc astimezone_utc
now-clock = refl

start-complete_example :
    complete digest store exchange clock nonces nonce (codes "request") credentials after_start
    ≡ (ok result, after_consume (digest nonce) after_start)
unfolding store-IsNonceStore
start-complete_example =
    start-complete digest store store-IsNonceStore exchange clock nonces (record { value = 1 })
      (record { value = 2 }) (codes "key") nonce (λ d. none) (λ d. none) after_start began
      (λ s d. refl) refl refl start-began (codes "request") credentials after_start
      (after_consume (digest nonce) after_start) (after_consume (digest nonce) after_start)
      (utc 1000) session token-valid refl now-clock (omega arith) refl
