-- ===== src/Connectors/Http/Reading.antt =====
-- connectors/zerodha_http.py: the bound on a response's size, and the retry header.
use mathlib.Core.Option
use portfolio_manager.Base.Integer.{int_of, digits_of}
use portfolio_manager.Application.{Bytes}
use portfolio_manager.Base.{
  List, Option, Result, Text, [], all, arith, err, if◌then◌else◌, is_digit, leb, length, none, ok,
  pos, refl, some, true, ℕ, ℤ, ◌*◌, ◌++◌, ◌+◌, ◌-◌, ◌<◌, ◌∷◌, ◌≡◌, ◌≤◌, ConnectorFailureKind,
  Option-cases, codes, inl, inr, length-append, negsuc, >>=-eq-ok, check_some, ◌∙◌,
}
use portfolio_manager.Connectors.Http.{
  Response, read_chunks, retry_after, too_large, retry_seconds, retry_text, check_length,
  read_bounded,
}
use mathlib.Core.List.{append-nil, append_assoc}
use mathlib.Core.Option.{none-ne-some, some-injective}
use portfolio_manager.Application.Laws.{raise_connector_error-ne-ok}

-- The bytes of a stream that ends without an exception.
unfoldable pub whole_body : List (Result Bytes) → Option Bytes
whole_body [] = some []
whole_body (err e ∷ rest) = none
whole_body (ok chunk ∷ rest) = Option.map (λ b. chunk ++ b) (whole_body rest)

-- Reading a stream that ends gives its bytes if they fit the limit, and the error if they do not.
pub read_chunks-whole :
    (limit size : ℕ) (chunks : Bytes) (stream : List (Result Bytes)) (body : Bytes)
    → whole_body stream ≡ some body
    → size ≤ limit
    → read_chunks limit size chunks stream
      ≡ (if leb (size + length body) limit then ok (chunks ++ body) else too_large)
unfolding read_chunks whole_body
read_chunks-whole limit size chunks [] body h fits = ground (arith, append-nil chunks)
read_chunks-whole limit size chunks (err e ∷ rest) body h fits = cc
read_chunks-whole limit size chunks (ok chunk ∷ rest) body h fits =
    elim (Option-cases (whole_body rest)) [
      | inl broken ↦ absurd (none-ne-some body (rw broken at h))
      | inr (b, e) ↦
          let joined : chunk ++ b ≡ body = some-injective (chunk ++ b) body (rw e at h) in
          rw (← joined) (
            ground (
              arith,
              read_chunks-whole limit (size + length chunk) (chunks ++ chunk) rest b e,
              length-append chunk b,
              append_assoc chunks chunk b,
            ))
    ]

read_chunks_bound :
    (limit size : ℕ) (chunks body : Bytes) (stream : List (Result Bytes))
    → size ≡ length chunks
    → read_chunks limit size chunks stream ≡ ok body
    → size ≤ limit
    → length body ≤ limit
unfolding read_chunks
read_chunks_bound limit size chunks body [] e h fits = ground arith
read_chunks_bound limit size chunks body (err x ∷ rest) e h fits = cc
read_chunks_bound limit size chunks body (ok chunk ∷ rest) e h fits = ground (
  arith,
  raise_connector_error-ne-ok ConnectorFailureKind.permanent (codes "provider.response_too_large")
      none body,
  length-append chunks chunk,
  read_chunks_bound limit (size + length chunk) (chunks ++ chunk) body rest,
)

all_digits :
    (unicode_decimal : ℕ → Option ℕ) (s : Text)
    → all is_digit s ≡ true
    → (ds : List ℕ) × (digits_of unicode_decimal true s ≡ some ds) × (length ds ≡ length s)
unfolding all digits_of
all_digits unicode_decimal [] h = ([], refl, refl)
all_digits unicode_decimal (c ∷ s) h =
    let (ds, e, n) = all_digits unicode_decimal s (ground arith) in
    ((c - b'0') ∷ ds, ground arith, ground arith)

abbrev pub IsWait : ℤ → Type 0
IsWait wait = (seconds : ℕ) × (wait ≡ pos (seconds * 1000000)) × (0 < seconds) × (seconds ≤ 86400)

module _ (unicode_decimal : ℕ → Option ℕ) where
  retry_seconds-IsWait :
      (o : Option ℤ) (wait : ℤ) → retry_seconds unicode_decimal o ≡ ok (some wait) → IsWait wait
  retry_seconds-IsWait none wait h = cc
  retry_seconds-IsWait (some (negsuc n)) wait h = ground arith
  retry_seconds-IsWait (some (pos n)) wait h = (n, ground arith, ground arith, ground arith)

  retry_text-IsWait :
      (o : Option Text) (wait : ℤ) → retry_text unicode_decimal o ≡ ok (some wait) → IsWait wait
  retry_text-IsWait none wait h = ground arith
  retry_text-IsWait (some value) wait h =
      retry_seconds-IsWait (int_of unicode_decimal value) wait (ground arith)

  -- A wait that is taken over from the header is of 1 to 86400 seconds.
  pub retry_after_bounds :
      (response : Response) (wait : ℤ)
      → retry_after unicode_decimal response ≡ ok (some wait)
      → IsWait wait
  unfolding retry_after
  retry_after_bounds response wait h =
      retry_text-IsWait (response.header (codes "retry-after")) wait h

read_chunks-eq-ok :
    (limit size : ℕ) (chunks body : Bytes) (stream : List (Result Bytes))
    → read_chunks limit size chunks stream ≡ ok body
    → (b : Bytes) × (whole_body stream ≡ some b) × (body ≡ chunks ++ b)
unfolding read_chunks whole_body
read_chunks-eq-ok limit size chunks body [] h = ([], refl, ground (arith, append-nil chunks))
read_chunks-eq-ok limit size chunks body (err x ∷ rest) h = cc
read_chunks-eq-ok limit size chunks body (ok chunk ∷ rest) h =
    let more : read_chunks limit (size + length chunk) (chunks ++ chunk) rest ≡ ok body = ground (
      arith,
      raise_connector_error-ne-ok ConnectorFailureKind.permanent
          (codes "provider.response_too_large") none body,
    ) in
    let (b, e, joined) =
      read_chunks-eq-ok limit (size + length chunk) (chunks ++ chunk) body rest more in
    (chunk ++ b, rw e, joined ∙ append_assoc chunks chunk b)

-- What is read from a stream is all of it, and at most the limit.
pub read_chunks_sound :
    (limit : ℕ) (stream : List (Result Bytes)) (body : Bytes)
    → read_chunks limit 0 [] stream ≡ ok body
    → (whole_body stream ≡ some body) × (length body ≤ limit)
read_chunks_sound limit stream body h =
    let (b, e, joined) = read_chunks-eq-ok limit 0 [] body stream h in
    (rw joined e, read_chunks_bound limit 0 [] body stream refl h (omega arith))

module _ (unicode_decimal : ℕ → Option ℕ) (response : Response) (limit : ℕ) (body : Bytes) where
  -- When `_read_bounded` gives back bytes, whatever length the response declares, the stream ended
  -- without an exception, and the bytes are all of it and at most the limit.
  pub read_bounded_sound :
      read_bounded unicode_decimal response limit ≡ ok body
      → (whole_body response.stream ≡ some body) × (length body ≤ limit)
  unfolding read_bounded
  read_bounded_sound h =
      let (_, _, k) =
        >>=-eq-ok
          (check_some (response.header (codes "content-length"))
            (λ text. check_length unicode_decimal limit (int_of unicode_decimal text)))
          _ h in
      read_chunks_sound limit response.stream body k

  -- With no declared length, a stream that ends without an exception is given back whole if it fits
  -- the limit; otherwise the error says that it is too large.
  pub read_bounded_complete :
      response.header (codes "content-length") ≡ none
      → whole_body response.stream ≡ some body
      → read_bounded unicode_decimal response limit
        ≡ (if leb (length body) limit then ok body else too_large)
  unfolding read_bounded
  read_bounded_complete undeclared whole =
      rw undeclared
        (read_chunks-whole limit 0 [] response.stream body whole (omega arith) ∙ ground arith)
