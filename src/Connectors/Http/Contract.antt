-- ===== src/Connectors/Http/Contract.antt =====
-- connectors/zerodha_http.py: what a client may answer, and how the reading of a response ends.
use portfolio_manager.Base.Exec.{Exec, continue}
use portfolio_manager.Application.{Bytes, raise_connector_error}
use portfolio_manager.Application.Laws.{raise_connector_error_lem}
use portfolio_manager.Base.{
  All, ConnectorFailureKind, Error, List, Option, Result, Text, [], all, check_some, codes,
  connector_error, err, length, ltb, ltb_ℤ, matches_key, network_error, none, ok, pos, refl, some,
  timeout_exception, true, ℕ, ℤ, ◌++◌, ◌+◌, ◌>>=◌, ◌||◌, ◌∷◌, ◌≡◌, Bool, arith, false,
  if◌then◌else◌, leb_ℤ, not_trimmed,
}
use portfolio_manager.Base.Integer.{int_of}
use portfolio_manager.Connectors.Http.{
  Response, check_length, raise_for_status, read_bounded, read_chunks, retry_after, too_large,
}
use portfolio_manager.Connectors.Http.Reading.{IsWait, retry_after_bounds}

-- An exception that `fetch` turns into a `ConnectorError`, or that is one already.
abbrev pub IsCaught : Error → Type 0
IsCaught timeout_exception = Unit
IsCaught network_error = Unit
IsCaught (connector_error kind reason_code retry_after) = matches_key reason_code ≡ true
IsCaught _ = ⊥

-- A result that meets `P`, or such an exception.
pub data Ends {A : Type 0} (P : A → Type 0) : Result A → Type 0 where
  value : {a : A} → P a → Ends P (ok a)
  caught : {e : Error} → IsCaught e → Ends P (err e)

module _ {A B : Type 0} (P : A → Type 0) (Q : B → Type 0) where
  pub Ends-bind :
      (r : Result A) (f : A → Result B)
      → Ends P r
      → ((a : A) → P a → Ends Q (f a))
      → Ends Q (r >>= f)
  Ends-bind (ok a) f (value p) k = k a p
  Ends-bind (err e) f (caught c) k = caught c

  pub Ends-continue :
      {S : Type 0} (r : Result A) (f : A → Exec S B) (s : S)
      → Ends P r
      → ((a : A) (s1 : S) → P a → Ends Q (f a s1).0)
      → Ends Q (continue r f s).0
  Ends-continue (ok a) f s (value p) k = k a s p
  Ends-continue (err e) f s (caught c) k = caught c

Ends-if :
    {A : Type 0} (P : A → Type 0) (b : Bool) (x y : Result A)
    → Ends P x
    → Ends P y
    → Ends P (if b then x else y)
Ends-if P true x y p q = p
Ends-if P false x y p q = q

pub Ends-raise :
    {A : Type 0} (P : A → Type 0) (kind : ConnectorFailureKind) (reason_code : Text)
    → matches_key reason_code ≡ true
    → Ends P (raise_connector_error kind reason_code none)
Ends-raise {A} P kind reason_code stable =
    rw (raise_connector_error_lem {A = A} kind reason_code stable) (caught stable)

-- The items of a response's stream: chunks, and perhaps an exception that is caught.
abbrev pub IsGoodEvent : Result Bytes → Type 0
IsGoodEvent (ok chunk) = Unit
IsGoodEvent (err e) = IsCaught e

too_large-Ends : {A : Type 0} (P : A → Type 0) → Ends P (too_large {A = A})
unfolding all
too_large-Ends P =
    Ends-raise P ConnectorFailureKind.permanent (codes "provider.response_too_large") refl

abbrev pub Anything : {A : Type 0} → A → Type 0
Anything a = Unit

read_chunks-Ends :
    (limit size : ℕ) (chunks : Bytes) (stream : List (Result Bytes))
    → All IsGoodEvent stream
    → Ends Anything (read_chunks limit size chunks stream)
unfolding read_chunks
read_chunks-Ends limit size chunks [] good = value tt
read_chunks-Ends limit size chunks (err e ∷ rest) good = caught good.0
read_chunks-Ends limit size chunks (ok chunk ∷ rest) good =
    Ends-if Anything (ltb limit (size + length chunk)) _ _ (too_large-Ends Anything)
      (read_chunks-Ends limit (size + length chunk) (chunks ++ chunk) rest good.1)

module _ (unicode_decimal : ℕ → Option ℕ) where
  check_length-Ends :
      (limit : ℕ) (o : Option ℤ) → Ends Anything (check_length unicode_decimal limit o)
  unfolding all
  check_length-Ends limit none =
      Ends-raise Anything ConnectorFailureKind.validation (codes "provider.invalid_content_length")
        refl
  check_length-Ends limit (some n) =
      Ends-if Anything (ltb_ℤ n (pos 0) || ltb_ℤ (pos limit) n) _ _ (too_large-Ends Anything)
        (value tt)

  check_header-Ends :
      (limit : ℕ) (o : Option Text)
      → Ends Anything
          (check_some o (λ text. check_length unicode_decimal limit (int_of unicode_decimal text)))
  check_header-Ends limit none = value tt
  check_header-Ends limit (some text) = check_length-Ends limit (int_of unicode_decimal text)

  pub read_bounded-Ends :
      (response : Response) (limit : ℕ)
      → All IsGoodEvent response.stream
      → Ends Anything (read_bounded unicode_decimal response limit)
  unfolding read_bounded
  read_bounded-Ends response limit good =
      Ends-bind Anything Anything (check_some (response.header (codes "content-length")) _) _
        (check_header-Ends limit (response.header (codes "content-length")))
        (λ _ _. read_chunks-Ends limit 0 [] response.stream good)

  rate_limit-Ends :
      (after : Option ℤ)
      → ((wait : ℤ) → after ≡ some wait → IsWait wait)
      → Ends (Anything {A = Unit {0}}) (
          raise_connector_error ConnectorFailureKind.rate_limit (codes "provider.rate_limit") after)
  unfolding raise_connector_error all
  rate_limit-Ends none bounds = caught refl
  rate_limit-Ends (some wait) bounds =
      let (seconds, e, positive, most) = bounds wait refl in
      let later : leb_ℤ wait (pos 0) ≡ false = rw e (ground arith) in rw later (caught refl)

  rate_limited-Ends :
      (response : Response) (after : Option ℤ)
      → retry_after unicode_decimal response ≡ ok after
      → Ends (Anything {A = Unit {0}}) (do
        wait ← retry_after unicode_decimal response
        raise_connector_error ConnectorFailureKind.rate_limit (codes "provider.rate_limit") wait)
  rate_limited-Ends response after e = rw e (
      rate_limit-Ends after
        (λ wait same. retry_after_bounds unicode_decimal response wait (rw same at e)))

  pub raise_for_status-Ends :
      (response : Response) (after : Option ℤ)
      → retry_after unicode_decimal response ≡ ok after
      → Ends Anything (raise_for_status unicode_decimal response)
  unfolding raise_for_status all
  raise_for_status-Ends response after e = Ends-if Anything _ _ _ (value tt) (
      Ends-if Anything _ _ _
        (Ends-raise Anything ConnectorFailureKind.authentication (codes "session.expired") refl)
        (Ends-if Anything _ _ _ (rate_limited-Ends response after e) (
          Ends-if Anything _ _ _
            (Ends-raise Anything ConnectorFailureKind.validation (codes "provider.invalid_request")
              refl)
            (Ends-if Anything _ _ _
              (Ends-raise Anything ConnectorFailureKind.permanent
                (codes "provider.endpoint_unavailable") refl)
              (Ends-if Anything _ _ _
                (Ends-raise Anything ConnectorFailureKind.transient (codes "provider.unavailable")
                  refl)
                (Ends-raise Anything ConnectorFailureKind.permission
                  (codes "provider.request_denied") refl))))))

-- What the program relies on of httpx: a request ends in a response or in an exception that is
-- caught, and so does the stream of its body. Its `Content-Type` is missing or trimmed and not
-- empty, and its `Retry-After` is one that `int` reads, if it is made of decimal digits.
abbrev pub IsGoodResponse : (ℕ → Option ℕ) → Result Response → Type 0
IsGoodResponse unicode_decimal (err e) = IsCaught e
IsGoodResponse unicode_decimal (ok response) =
    All IsGoodEvent response.stream
    × ((text : Text)
        → response.header (codes "content-type") ≡ some text
        → not_trimmed text ≡ false)
    × ((after : Option ℤ) × (retry_after unicode_decimal response ≡ ok after))
