-- ===== src/Connectors/Auth/Exchange/Expiring.antt =====
-- connectors/zerodha_auth.py: what the session of an exchange is made of.
use portfolio_manager.Base.{
  Result, Text, arith, err, false, not_printable, ok, some, true, ℕ, ℤ, ◌≡◌, >>=-eq-ok, negsuc,
  overflow_error, pos, raise_if, ◌>>=◌, ◌>>◌, Bool, Error, String, refl, ltb, ◌*◌, ◌+◌, ◌/◌,
  raise_if-ok,
}
use portfolio_manager.Connectors.Auth.Expiry.{session_expiry, local_wall, a_day, six_hours}
use portfolio_manager.Connectors.Http.{KiteSession, kite_session_post_init, validate_secret}
use portfolio_manager.Domain.Temporal.{Datetime, as_utc, utc, astimezone_utc, max_wall}

-- The session with an expiry that is there, once it is in UTC.
abbrev expiring : Text → Text → Result Datetime → Result KiteSession
expiring key token made = do
  expires_at ← made >>= λ u. ok (some u)
  ok (record { api_key = key; access_token = some token; expires_at = expires_at })

expiring-inv :
    (key token : Text) (made : Result Datetime) (r : KiteSession)
    → expiring key token made ≡ ok r
    → (r.api_key ≡ key)
      × (r.access_token ≡ some token)
      × ((u : Datetime) × (made ≡ ok u) × (r.expires_at ≡ some u))
expiring-inv key token (ok u) r h = (cc, cc, (u, refl, cc))
expiring-inv key token (err e) r h = cc

secret-inv :
    (value : Text) (name : String)
    → validate_secret value name ≡ ok tt
    → not_printable value ≡ false
unfolding validate_secret
secret-inv value name h = raise_if-ok (not_printable value) _ h

pub session-inv :
    (key token : Text) (e : Datetime) (r : KiteSession)
    → kite_session_post_init
        (record { api_key = key; access_token = some token; expires_at = some e })
      ≡ ok r
    → (r.api_key ≡ key)
      × (r.access_token ≡ some token)
      × (not_printable token ≡ false)
      × ((u : Datetime) × (as_utc e "expires_at" ≡ ok u) × (r.expires_at ≡ some u))
unfolding kite_session_post_init
session-inv key token e r h =
    let (_, _, k1) =
      >>=-eq-ok (validate_secret key "API key")
        (λ _. validate_secret token "access token" >> expiring key token (as_utc e "expires_at"))
        h in
    let (_, fine, k2) =
      >>=-eq-ok (validate_secret token "access token")
        (λ _. expiring key token (as_utc e "expires_at")) k1 in
    let (same_key, same_token, expires) = expiring-inv key token (as_utc e "expires_at") r k2 in
    (same_key, same_token, secret-inv token "access token" fine, expires)

astimezone_utc-utc : (w : ℕ) (z : ℤ) (u : Datetime) → astimezone_utc w z ≡ ok u → u ≡ utc u.wall
unfolding astimezone_utc
astimezone_utc-utc w (pos n) u h = ground arith
astimezone_utc-utc w (negsuc n) u h = ground arith

past_check :
    {A : Type 0} (b : Bool) (x : Error) (r : Result A) (a : A)
    → (raise_if b x >> r) ≡ ok a
    → r ≡ ok a
past_check true x r a h = cc
past_check false x r a h = h

pub expiry-utc :
    (offset_at_utc offset_at_wall : ℕ → ℤ) (at e : Datetime)
    → session_expiry offset_at_utc offset_at_wall at ≡ ok e
    → e ≡ utc e.wall
unfolding session_expiry
expiry-utc offset_at_utc offset_at_wall at e h =
    let (local, _, k) = >>=-eq-ok (local_wall at.wall (offset_at_utc at.wall)) _ h in
    let morning : ℕ = (local / a_day + 1) * a_day + six_hours in
    astimezone_utc-utc morning (offset_at_wall morning) e (
      past_check (ltb max_wall morning) overflow_error
        (astimezone_utc morning (offset_at_wall morning)) e k)
